-- ===== src/Disk/Sector.antt =====
-- The widening of a read to whole sectors in src/disk.rs, and the copy out of them.
use arfw.Base.{
  ℕ, zero, suc, ◌+◌, ◌-◌, ◌%◌, ◌^◌, ◌≤◌, ◌<◌, min, ◌≡◌, refl, ap, ◌∙◌, List, [], ◌∷◌, ◌++◌, length,
  take, drop, arith, length-take, length-drop, take-append, drop-append, drop-drop, drop-take,
  take-take, take-nil,
}
use arfw.Disk.Reader.{aligned_len, overwrite, copy_out}

-- The bytes of a disk from an offset on, at most `n`.
abbrev pub slice : List ℕ → ℕ → ℕ → List ℕ
slice bytes offset n = take n (drop offset bytes)

-- A buffer whose first bytes have been overwritten.
abbrev pub filled : List ℕ → List ℕ → List ℕ
filled got buf = got ++ drop (length got) buf

pub aligned_len_bounds :
    (skipped n : ℕ)
    → skipped < 512
    → n < 2 ^ 31
    → (aligned_len skipped n % 512 ≡ 0)
      × (skipped + n ≤ aligned_len skipped n)
      × (aligned_len skipped n < 2 ^ 32)
unfolding aligned_len
aligned_len_bounds skipped n s h = (omega arith, omega arith, omega arith)

take-min-length : (n : ℕ) (xs : List ℕ) → take (min n (length xs)) xs ≡ take n xs
take-min-length zero xs = ap (λ k. take k xs) {y = 0} (omega arith)
take-min-length (suc n) [] = take-nil (min (suc n) 0)
take-min-length (suc n) (x ∷ xs) =
    let e : min (suc n) (suc (length xs)) ≡ suc (min n (length xs)) = omega arith in
    rw e (ap (◌∷◌ x) (take-min-length n xs))

take-overwrite :
    (c skipped : ℕ) (got zs : List ℕ)
    → c ≤ length got - skipped
    → take c (drop skipped (got ++ zs)) ≡ take c (drop skipped got)
take-overwrite zero skipped got zs h = refl
take-overwrite (suc c) skipped got zs h =
    rw (drop-append skipped got zs (omega arith))
      (take-append (suc c) (drop skipped got) zs (omega (arith, length-drop skipped got)))

-- What the widened read transfers behind the skipped bytes.
drop-widened :
    (bytes : List ℕ) (aligned skipped len : ℕ)
    → skipped ≤ len
    → drop skipped (take len (drop aligned bytes))
      ≡ take (len - skipped) (drop (aligned + skipped) bytes)
drop-widened bytes aligned skipped len h =
    let e : len ≡ skipped + (len - skipped) = omega arith in
    ap (λ k. drop skipped (take k (drop aligned bytes))) e
    ∙ drop-take skipped (len - skipped) (drop aligned bytes)
    ∙ ap (take (len - skipped)) (drop-drop skipped aligned bytes)

pub copy_out-widened :
    (bytes : List ℕ) (aligned skipped len : ℕ) (buf : List ℕ)
    → skipped + length buf ≤ len
    → let s = slice bytes (aligned + skipped) (length buf) in
      copy_out (take len (drop aligned bytes)) len skipped buf ≡ (length s, filled s buf)
unfolding copy_out
copy_out-widened bytes aligned skipped len buf h =
    let got = take len (drop aligned bytes) in
    let rest = drop (aligned + skipped) bytes in
    let widened : drop skipped got ≡ take (len - skipped) rest =
      drop-widened bytes aligned skipped len (omega arith) in
    let count : length got - skipped ≡ min (len - skipped) (length rest) =
      omega (arith, length-drop skipped got, ap length widened, length-take (len - skipped) rest) in
    let copied : min (length got - skipped) (length buf) ≡ min (length buf) (length rest) =
      omega arith in
    let content : take (min (length buf) (length rest)) (drop skipped (overwrite got len))
        ≡ take (length buf) rest =
      take-overwrite (min (length buf) (length rest)) skipped got _ (omega arith)
      ∙ ap (take (min (length buf) (length rest))) widened
      ∙ take-take (min (length buf) (length rest)) (len - skipped) rest (omega arith)
      ∙ take-min-length (length buf) rest in
    rw (copied, content, length-take (length buf) rest)
