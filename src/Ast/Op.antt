-- ===== src/Ast/Op.antt =====
-- The operators of the language: `OpCode` of src/ast.rs, and `op_name` of src/printer.rs.
use aipl.Base.{String}

pub data OpCode : Type 0 where
  add sub mul div modulo div_u rem_u bit_xor shl shr shr_u bit_and bit_or rotl rotr bit_not : OpCode
  clz ctz popcnt mem_load8 mem_load32 mem_load64 mem_store8 mem_store32 mem_store64 : OpCode
  mem_load8_s mem_load16_u mem_load16_s mem_store16 mem_alloc mem_grow atomic_add : OpCode
  atomic_cas atomic_lock atomic_unlock eq neq lt lte checked_add checked_sub checked_mul : OpCode
  lt_u lte_u gt_u gte_u gt gte and_op or_op not_op sys_print sys_time sys_monotonic : OpCode
  sys_random sys_exit fs_open fs_read fs_write fs_close fs_delete fs_opendir fs_readdir : OpCode
  fs_stat fs_chmod fs_rename fs_rmdir fs_mkdir sys_poll net_listen net_accept net_recv : OpCode
  net_send net_connect net_connect_host net_tls_connect net_close proc_spawn proc_stream : OpCode
  proc_read proc_write proc_close proc_wait proc_exec proc_kill proc_try_wait net_poll : OpCode
  proc_poll args_sizes args_get env_sizes env_get thread_spawn thread_join i64_extend_s : OpCode
  i64_extend_u i32_wrap f64_convert_i64_s f32_demote_f64 f64_promote_f32 f32_convert_i32_s : OpCode
  f32_convert_i64_s f64_convert_i32_s i32_trunc_f32_s i32_trunc_f64_s i64_trunc_f32_s : OpCode
  f32_reinterpret_i32 i32_reinterpret_f32 f64_sqrt i64_trunc_f64_s f64_reinterpret_i64 : OpCode
  i64_reinterpret_f64 str_len str_ptr format_str format_to format_print format_println : OpCode
  format_eprintln format_piece try try_opt try_or defer drop format_dbg format_expect abort : OpCode
  format_assert : OpCode

unfoldable pub op_name : OpCode → String
op_name add = "+"
op_name sub = "-"
op_name mul = "*"
op_name div = "/"
op_name modulo = "%"
op_name div_u = "divu"
op_name rem_u = "remu"
op_name bit_xor = "^"
op_name shl = "shl"
op_name shr = "shr"
op_name shr_u = "shru"
op_name bit_and = "bitand"
op_name bit_or = "bitor"
op_name rotl = "rotl"
op_name rotr = "rotr"
op_name bit_not = "bitnot"
op_name clz = "clz"
op_name ctz = "ctz"
op_name popcnt = "popcnt"
op_name mem_load8 = "mem.load8"
op_name mem_load32 = "mem.load32"
op_name mem_load64 = "mem.load64"
op_name mem_store8 = "mem.store8"
op_name mem_store32 = "mem.store32"
op_name mem_store64 = "mem.store64"
op_name mem_load8_s = "mem.load8_s"
op_name mem_load16_u = "mem.load16_u"
op_name mem_load16_s = "mem.load16_s"
op_name mem_store16 = "mem.store16"
op_name mem_alloc = "mem.alloc"
op_name mem_grow = "mem.grow"
op_name atomic_add = "atomic.add"
op_name atomic_cas = "atomic.cas"
op_name atomic_lock = "atomic.lock"
op_name atomic_unlock = "atomic.unlock"
op_name eq = "eq"
op_name neq = "neq"
op_name lt = "lt"
op_name lte = "lte"
op_name checked_add = "checked.add"
op_name checked_sub = "checked.sub"
op_name checked_mul = "checked.mul"
op_name lt_u = "ltu"
op_name lte_u = "lteu"
op_name gt_u = "gtu"
op_name gte_u = "gteu"
op_name gt = "gt"
op_name gte = "gte"
op_name and_op = "and"
op_name or_op = "or"
op_name not_op = "not"
op_name sys_print = "sys.print"
op_name sys_time = "sys.time"
op_name sys_monotonic = "sys.monotonic"
op_name sys_random = "sys.random"
op_name sys_exit = "sys.exit"
op_name fs_open = "fs.open"
op_name fs_read = "fs.read"
op_name fs_write = "fs.write"
op_name fs_close = "fs.close"
op_name fs_delete = "fs.delete"
op_name fs_opendir = "fs.opendir"
op_name fs_readdir = "fs.readdir"
op_name fs_stat = "fs.stat"
op_name fs_chmod = "fs.chmod"
op_name fs_rename = "fs.rename"
op_name fs_rmdir = "fs.rmdir"
op_name fs_mkdir = "fs.mkdir"
op_name sys_poll = "sys.poll"
op_name net_listen = "net.listen"
op_name net_accept = "net.accept"
op_name net_recv = "net.recv"
op_name net_send = "net.send"
op_name net_connect = "net.connect"
op_name net_connect_host = "net.connect_host"
op_name net_tls_connect = "net.tls_connect"
op_name net_close = "net.close"
op_name proc_spawn = "proc.spawn"
op_name proc_stream = "proc.stream"
op_name proc_read = "proc.read"
op_name proc_write = "proc.write"
op_name proc_close = "proc.close"
op_name proc_wait = "proc.wait"
op_name proc_exec = "proc.exec"
op_name proc_kill = "proc.kill"
op_name proc_try_wait = "proc.try_wait"
op_name net_poll = "net.poll"
op_name proc_poll = "proc.poll"
op_name args_sizes = "args.sizes"
op_name args_get = "args.get"
op_name env_sizes = "env.sizes"
op_name env_get = "env.get"
op_name thread_spawn = "thread.spawn"
op_name thread_join = "thread.join"
op_name i64_extend_s = "i64.extend_s"
op_name i64_extend_u = "i64.extend_u"
op_name i32_wrap = "i32.wrap"
op_name f64_convert_i64_s = "f64.convert_i64_s"
op_name f32_demote_f64 = "f32.demote"
op_name f64_promote_f32 = "f64.promote"
op_name f32_convert_i32_s = "f32.convert_i32_s"
op_name f32_convert_i64_s = "f32.convert_i64_s"
op_name f64_convert_i32_s = "f64.convert_i32_s"
op_name i32_trunc_f32_s = "i32.trunc_f32_s"
op_name i32_trunc_f64_s = "i32.trunc_f64_s"
op_name i64_trunc_f32_s = "i64.trunc_f32_s"
op_name f32_reinterpret_i32 = "f32.reinterpret_i32"
op_name i32_reinterpret_f32 = "i32.reinterpret_f32"
op_name f64_sqrt = "f64.sqrt"
op_name i64_trunc_f64_s = "i64.trunc_f64_s"
op_name f64_reinterpret_i64 = "f64.reinterpret_i64"
op_name i64_reinterpret_f64 = "i64.reinterpret_f64"
op_name str_len = "str.len"
op_name str_ptr = "str.ptr"
op_name format_str = "format.str"
op_name format_to = "format.to"
op_name format_print = "format.print"
op_name format_println = "format.println"
op_name format_eprintln = "format.eprintln"
op_name format_piece = "format.piece"
op_name try = "try"
op_name try_opt = "try_opt"
op_name try_or = "try_or"
op_name defer = "defer"
op_name drop = "drop"
op_name format_dbg = "format.dbg"
op_name format_expect = "format.expect"
op_name abort = "abort"
op_name format_assert = "format.assert"
