-- ===== src/Lib.antt =====
-- The front end of AIPL: the Rust toolchain in src/.
--
-- A program is read as S-expressions over tokens, its modules are joined and its generics, constants
-- and surface forms expanded, its locals renamed, and the result is parsed, checked and run by a virtual
-- machine or compiled. The parts modelled here, each with the module that holds it:
--
--   src/sexpr.rs     Sx          `Sx` and `Vec<Sx>` as `Sx` and `Items`, `flatten`, heads and positions
--                    Sx.Reader   `Sx::read`, with its `loop` as `read_items`, and `Sx::read_one`
--   src/parser.rs    Token       `Token`, `TokenKind`, `c_operator`
--                    Tokenize.Scan, Tokenize.Literals  `Parser::tokenize` and `radix_literal`; the number
--                                parsers of the library are the fields of `StdParse`, a parameter
--                    Tokenize.Display  how a token is shown
--                    Suggest, Suggest.Nearest  `edit_distance` and `nearest_name`
--   src/ast.rs       Ast.Expr    types, literals, expressions, functions; Ast.Op has the operators
--   src/compiler/wasm.rs  Ast.Walk  `walk_expr`, as the list of what its visitor is called on
--   src/printer.rs   Ast.Op      `op_name`
--   src/vm.rs        Vm.Value    `Value`, and the error of an instruction
--                    Vm.Arith    the arithmetic, bit, comparison and logic arms of `eval_op`
--                    Vm.Memory   the shared memory as a function of the address, and the checks of a store
--                    Vm.Memory.Alloc, Vm.Memory.Cells  `alloc_bytes`, mem.alloc, mem.grow, `load_val_at`,
--                                `store_val_at`, `deref`
--                    Vm.Memory.Ops, Vm.Memory.Atomic  the loads, stores and atomics of `eval_op`; an attempt
--                                of atomic.lock is one step of Vm.Memory.Locks
--   src/consts.rs    Consts.Fold `Val`, `fold`: operators on constants at compile time
--   src/scopes.rs    Scopes      `Scopes` and its operations, in a state monad
--                    Scopes.Form, Scopes.Walk, Scopes.Locals  `walk`, an arm of its `match` to a function,
--                                and `rename_locals`
--   src/checker.rs   Scopes.Shown  `shown`: how a message writes a renamed local
--                    Layout.Sums, Layout.Types, Layout.Extents  `sum_layout`, `scalars`, `layout_at`, field
--                                offsets and struct sizes
--                    Typing.Kinds, Typing.Operators, Typing.Rules  the arms of `infer_expr_type` for the
--                                operators, on the types of their operands
--   src/excerpt.rs   Excerpt     `locate`: the place a line of a message names
--   src/sugar.rs     Sugar.Shape, Sugar.Rewrite  `rewrite`: the checks of a form's shape, and what it becomes
--   src/leaks.rs     Leaks       what each function does that keeps memory: `sites`
--                    Leaks.Analysis, Leaks.Check  `Analysis::new`, `chain`, `check`
--
-- Base holds what they share, Word the machine integers (an i32 or i64 is an integer, wrapped after
-- each operation, and a u32 the number of its bits), and Text.Decimal how a number is written.
--
-- How the code is carried over. `&mut` state is passed and returned. A `HashMap` is an association list,
-- which is never iterated. An error that the program reports is a constructor for each message with the
-- position it stands at, save the texts of the leak checker, which are written out. A float is its bit
-- pattern, and the hardware's float operations are the fields of `FloatOps`, a parameter of every
-- definition that needs them; the theorems hold for any. A u32 counter of declarations does not wrap.
--
-- A panic (an index out of range, an overflow of unsigned arithmetic as a build with overflow checks
-- sees it, an arm taken for unreachable) is a result of its own in Sugar, and in the memory a slice out
-- of range is one.
--
-- Of the library's number parsers a theorem relies on what `StdLaws` says, which is documented of them;
-- Tokenize.Std has a parser of decimal integers for the tests, which keeps to it.
--
-- An operand that an instruction evaluates after a check is a function of the memory (`Operand`). UTF-8
-- and the conversion of an f64 to an f32 are the fields of `Host`, a parameter. A size, an offset or an
-- address is a natural number: a memory has at most 2^31 bytes.
--
-- Fuel. `tokenize` has as much as the text has characters. `read` has twice the number of tokens and one
-- more; each call of the reader passes a token or a bracket. The analysis of leaks makes one more pass than the module has functions: each pass but the
-- last adds a function. A chain of calls has one more step than there are functions that may leak. The
-- fuel of `scalars` bounds how deep types lie in types, and running out is an error of its own; the
-- depth of `layout_at` is the source's 64.
--
-- Not modelled: the parser of expressions, the rest of the constants, generics, the
-- resolver, the formats, the rest of the checker, values of several words in memory, the calls and the
-- system calls of the virtual machine, the line and the caret of an excerpt, and the code generators.
-- The command line, the network, processes and files are input and output.
pub mod Base
pub mod Token
pub mod Sx
pub mod Word
pub mod Ast
pub mod Vm
pub mod Consts
pub mod Text
pub mod Scopes
pub mod Leaks
pub mod Sugar
pub mod Tokenize
pub mod Suggest
pub mod Excerpt
pub mod Layout
pub mod Typing
