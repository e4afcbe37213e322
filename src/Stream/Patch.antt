-- ===== src/Stream/Patch.antt =====
-- ec_stream.h, `stream`: what a copy into the block changes, and what it leaves.
use eclib.Common.{
  ℕ, ◌+◌, ◌≤◌, ◌≡◌, sym, ap, ◌∙◌, List, ◌++◌, length, take, drop, arith, length-append, length-take,
  length-drop, take-append_length, drop-append_length,
}
use mathlib.Core.List.{append_assoc}
use eclib.Stream.{patch}

module _ {ℓ} {A : Type ℓ} where
  pub drop-split : (n : ℕ) (xs ys : List A) → length xs ≡ n → drop n (xs ++ ys) ≡ ys
  drop-split n xs ys e = ap (λ (k : ℕ). drop k (xs ++ ys)) (sym e) ∙ drop-append_length xs ys

  take-split : (n : ℕ) (xs ys : List A) → length xs ≡ n → take n (xs ++ ys) ≡ xs
  take-split n xs ys e = ap (λ (k : ℕ). take k (xs ++ ys)) (sym e) ∙ take-append_length xs ys

-- The bytes `bs` stand at `pos`, and all others are as they were.
pub record IsPatched (old : List ℕ) (pos : ℕ) (bs new : List ℕ) : Type 0 where
  pub inside : take (length bs) (drop pos new) ≡ bs
  pub before : take pos new ≡ take pos old
  pub behind : drop (pos + length bs) new ≡ drop (pos + length bs) old
  pub same_length : length new ≡ length old

pub patch-IsPatched :
    (buf : List ℕ) (pos : ℕ) (bs : List ℕ)
    → pos + length bs ≤ length buf
    → IsPatched buf pos bs (patch buf pos bs)
patch-IsPatched buf pos bs h =
    let front : length (take pos buf) ≡ pos = omega (arith, length-take pos buf) in
    let back = drop (pos + length bs) buf in
    let both : length (take pos buf ++ bs) ≡ pos + length bs =
      omega (arith, length-append (take pos buf) bs) in
    record {
      inside = rw (drop-split pos (take pos buf) (bs ++ back) front) (take-append_length bs back);
      before = take-split pos (take pos buf) (bs ++ back) front;
      behind =
          ap (λ (t : List ℕ). drop (pos + length bs) t) (sym (append_assoc (take pos buf) bs back))
          ∙ drop-split (pos + length bs) (take pos buf ++ bs) back both;
      same_length = omega (
        arith,
        length-append (take pos buf) (bs ++ back),
        length-append bs back,
        length-drop (pos + length bs) buf,
      );
    }
