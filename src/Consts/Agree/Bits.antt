-- ===== src/Consts/Agree/Bits.antt =====
-- The bit operators, shifts and rotations of src/consts.rs and src/vm.rs, side by side.
use aipl.Base.{ℕ, ◌%◌, ℤ, pos, String, ◌≡◌, refl, arith, negsuc}
use aipl.Ast.Op.{OpCode}
use aipl.Word.{to_bits, wrapping_shl, wrapping_shr, unsigned_shr}
use aipl.Word.Range.{Width, w32, w64, bits, wrap_id}
use aipl.Vm.Value.{FloatOps, invalid_types}
use aipl.Vm.Arith.{binary, bit_xor, bit_and, bit_or, shl, shr, shr_u, rotate}
use aipl.Consts.Fold.{Val, i32, i64, f64, bool, fold_int, fold_two, fold_f64, fold_bool}
use aipl.Consts.Agree.Defs.{embed, ValFits, Agrees, run_two}

-- A count that is masked already is masked to itself.
mask_idem : (w : Width) (n : ℕ) → n % bits w % bits w ≡ n % bits w
mask_idem w32 n = omega arith
mask_idem w64 n = omega arith

shl-mask :
    (w : Width) (x : ℤ) (n : ℕ) → wrapping_shl (bits w) x (n % bits w) ≡ wrapping_shl (bits w) x n
unfolding wrapping_shl
shl-mask w x n = rw (mask_idem w n)

shr-mask :
    (w : Width) (x : ℤ) (n : ℕ) → wrapping_shr (bits w) x (n % bits w) ≡ wrapping_shr (bits w) x n
unfolding wrapping_shr
shr-mask w (pos a) n = rw (mask_idem w n)
shr-mask w (negsuc a) n = rw (mask_idem w n)

unsigned_shr-mask :
    (w : Width) (x : ℤ) (n : ℕ) → unsigned_shr (bits w) x (n % bits w) ≡ unsigned_shr (bits w) x n
unfolding unsigned_shr
unsigned_shr-mask w x n = rw (mask_idem w n)

module _ (F : FloatOps) (op : String) where
  pub bit_xor-Agrees :
      (a b : Val)
      → ValFits a
      → ValFits b
      → Agrees (fold_two F op OpCode.bit_xor a b) (run_two F OpCode.bit_xor (embed a) (embed b))
  unfolding fold_two fold_int fold_f64 fold_bool run_two binary bit_xor
  bit_xor-Agrees (i32 x) (i32 y) h k = rw (wrap_id w32 x h, wrap_id w32 y k)
  bit_xor-Agrees (i64 x) (i64 y) h k = refl
  bit_xor-Agrees (f64 x) (f64 y) h k = (invalid_types OpCode.bit_xor, refl)
  bit_xor-Agrees (bool x) (bool y) h k = (invalid_types OpCode.bit_xor, refl)
  bit_xor-Agrees _ _ h k = (invalid_types OpCode.bit_xor, refl)

  pub bit_and-Agrees :
      (a b : Val)
      → ValFits a
      → ValFits b
      → Agrees (fold_two F op OpCode.bit_and a b) (run_two F OpCode.bit_and (embed a) (embed b))
  unfolding fold_two fold_int fold_f64 fold_bool run_two binary bit_and
  bit_and-Agrees (i32 x) (i32 y) h k = rw (wrap_id w32 x h, wrap_id w32 y k)
  bit_and-Agrees (i64 x) (i64 y) h k = refl
  bit_and-Agrees (f64 x) (f64 y) h k = (invalid_types OpCode.bit_and, refl)
  bit_and-Agrees (bool x) (bool y) h k = (invalid_types OpCode.bit_and, refl)
  bit_and-Agrees _ _ h k = (invalid_types OpCode.bit_and, refl)

  pub bit_or-Agrees :
      (a b : Val)
      → ValFits a
      → ValFits b
      → Agrees (fold_two F op OpCode.bit_or a b) (run_two F OpCode.bit_or (embed a) (embed b))
  unfolding fold_two fold_int fold_f64 fold_bool run_two binary bit_or
  bit_or-Agrees (i32 x) (i32 y) h k = rw (wrap_id w32 x h, wrap_id w32 y k)
  bit_or-Agrees (i64 x) (i64 y) h k = refl
  bit_or-Agrees (f64 x) (f64 y) h k = (invalid_types OpCode.bit_or, refl)
  bit_or-Agrees (bool x) (bool y) h k = (invalid_types OpCode.bit_or, refl)
  bit_or-Agrees _ _ h k = (invalid_types OpCode.bit_or, refl)

  pub shl-Agrees :
      (a b : Val)
      → ValFits a
      → ValFits b
      → Agrees (fold_two F op OpCode.shl a b) (run_two F OpCode.shl (embed a) (embed b))
  unfolding fold_two fold_int fold_f64 fold_bool run_two binary shl
  shl-Agrees (i32 x) (i32 y) h k = rw (wrap_id w32 x h, shl-mask w32 x (to_bits 32 y))
  shl-Agrees (i64 x) (i64 y) h k = rw (shl-mask w64 x (to_bits 32 y))
  shl-Agrees (f64 x) (f64 y) h k = (invalid_types OpCode.shl, refl)
  shl-Agrees (bool x) (bool y) h k = (invalid_types OpCode.shl, refl)
  shl-Agrees _ _ h k = (invalid_types OpCode.shl, refl)

  pub shr-Agrees :
      (a b : Val)
      → ValFits a
      → ValFits b
      → Agrees (fold_two F op OpCode.shr a b) (run_two F OpCode.shr (embed a) (embed b))
  unfolding fold_two fold_int fold_f64 fold_bool run_two binary shr
  shr-Agrees (i32 x) (i32 y) h k = rw (wrap_id w32 x h, shr-mask w32 x (to_bits 32 y))
  shr-Agrees (i64 x) (i64 y) h k = rw (shr-mask w64 x (to_bits 32 y))
  shr-Agrees (f64 x) (f64 y) h k = (invalid_types OpCode.shr, refl)
  shr-Agrees (bool x) (bool y) h k = (invalid_types OpCode.shr, refl)
  shr-Agrees _ _ h k = (invalid_types OpCode.shr, refl)

  pub shr_u-Agrees :
      (a b : Val)
      → ValFits a
      → ValFits b
      → Agrees (fold_two F op OpCode.shr_u a b) (run_two F OpCode.shr_u (embed a) (embed b))
  unfolding fold_two fold_int fold_f64 fold_bool run_two binary shr_u
  shr_u-Agrees (i32 x) (i32 y) h k = rw (wrap_id w32 x h, unsigned_shr-mask w32 x (to_bits 32 y))
  shr_u-Agrees (i64 x) (i64 y) h k = rw (unsigned_shr-mask w64 x (to_bits 32 y))
  shr_u-Agrees (f64 x) (f64 y) h k = (invalid_types OpCode.shr_u, refl)
  shr_u-Agrees (bool x) (bool y) h k = (invalid_types OpCode.shr_u, refl)
  shr_u-Agrees _ _ h k = (invalid_types OpCode.shr_u, refl)

  pub rotl-Agrees :
      (a b : Val)
      → ValFits a
      → ValFits b
      → Agrees (fold_two F op OpCode.rotl a b) (run_two F OpCode.rotl (embed a) (embed b))
  unfolding fold_two fold_int fold_f64 fold_bool run_two binary rotate
  rotl-Agrees (i32 x) (i32 y) h k = rw (wrap_id w32 x h)
  rotl-Agrees (i64 x) (i64 y) h k = refl
  rotl-Agrees (f64 x) (f64 y) h k = (invalid_types OpCode.rotl, refl)
  rotl-Agrees (bool x) (bool y) h k = (invalid_types OpCode.rotl, refl)
  rotl-Agrees _ _ h k = (invalid_types OpCode.rotl, refl)

  pub rotr-Agrees :
      (a b : Val)
      → ValFits a
      → ValFits b
      → Agrees (fold_two F op OpCode.rotr a b) (run_two F OpCode.rotr (embed a) (embed b))
  unfolding fold_two fold_int fold_f64 fold_bool run_two binary rotate
  rotr-Agrees (i32 x) (i32 y) h k = rw (wrap_id w32 x h)
  rotr-Agrees (i64 x) (i64 y) h k = refl
  rotr-Agrees (f64 x) (f64 y) h k = (invalid_types OpCode.rotr, refl)
  rotr-Agrees (bool x) (bool y) h k = (invalid_types OpCode.rotr, refl)
  rotr-Agrees _ _ h k = (invalid_types OpCode.rotr, refl)
