-- ===== src/Base/Arrays.antt =====
-- C arrays of a fixed size. A write outside of the array is `none`, undefined behaviour.
use Prim.Native.Nat.{ℕ, zero, suc, ◌≤◌, ◌<◌}
use mathlib.Core.Path.{◌≡◌, refl, ap, sym, ◌∙◌}
use mathlib.Core.List.{[], ◌∷◌, ◌++◌, append_assoc}
use mathlib.Core.Option.{Option, none, some}
use native.Mathlib.Omega.{arith}
use tp_socks5_proxy.Base.Tests.{Bytes, ◌>>=◌}
use tp_socks5_proxy.Base.Lists.{
  length, drop, take, length-append, take-append-drop, length-take, length-drop, replicate,
}

-- `a[i] = v`.
abbrev pub store : Bytes → ℕ → ℕ → Option Bytes
store [] i v = none
store (x ∷ xs) zero v = some (v ∷ xs)
store (x ∷ xs) (suc i) v = store xs i v >>= λ ys. some (x ∷ ys)

-- The bytes stored one after another from index `k` on.
abbrev pub blit : Bytes → ℕ → Bytes → Option Bytes
blit a k [] = some a
blit a k (v ∷ vs) = store a k v >>= λ a'. blit a' (suc k) vs

pub store-append :
    (pre : Bytes) (x : ℕ) (post : Bytes) (i v : ℕ)
    → i ≡ length pre
    → store (pre ++ (x ∷ post)) i v ≡ some (pre ++ (v ∷ post))
store-append [] x post zero v h = refl
store-append [] x post (suc i) v h = absurd (omega arith)
store-append (y ∷ pre) x post zero v h = absurd (omega arith)
store-append (y ∷ pre) x post (suc i) v h =
    ap (λ m. m >>= λ ys. some (y ∷ ys)) (store-append pre x post i v (omega arith))

pub store_outside : (a : Bytes) (i v : ℕ) → length a ≤ i → store a i v ≡ none
store_outside [] i v h = refl
store_outside (x ∷ xs) zero v h = absurd (omega arith)
store_outside (x ∷ xs) (suc i) v h =
    ap (λ m. m >>= λ ys. some (x ∷ ys)) (store_outside xs i v (omega arith))

pub store_inside :
    (a : Bytes) (i v : ℕ)
    → i < length a
    → (a' : Bytes) × (store a i v ≡ some a') × (length a' ≡ length a)
store_inside [] i v h = absurd (omega arith)
store_inside (x ∷ xs) zero v h = (v ∷ xs, refl, refl)
store_inside (x ∷ xs) (suc i) v h =
    let (ys, e, l) = store_inside xs i v (omega arith) in
    (x ∷ ys, ap (λ m. m >>= λ ys. some (x ∷ ys)) e, ap suc l)

-- Bytes stored over as many old ones replace them, and nothing else changes.
pub blit-append :
    (new pre old post : Bytes) (k : ℕ)
    → k ≡ length pre
    → length old ≡ length new
    → blit (pre ++ (old ++ post)) k new ≡ some (pre ++ (new ++ post))
blit-append [] pre [] post k h l = refl
blit-append [] pre (x ∷ old) post k h l = absurd (omega arith)
blit-append (v ∷ new) pre [] post k h l = absurd (omega arith)
blit-append (v ∷ new) pre (x ∷ old) post k h l = rw (store-append pre x (old ++ post) k v h) (
    rw (← append_assoc pre (v ∷ []) (old ++ post)) (
      blit-append new (pre ++ (v ∷ [])) old post (suc k) (omega (arith, length-append pre (v ∷ [])))
        (omega arith)
      ∙ ap some (append_assoc pre (v ∷ []) (new ++ post))))

-- Bytes stored from the front replace the first ones.
pub blit_front :
    (new a : Bytes) → length new ≤ length a → blit a 0 new ≡ some (new ++ drop (length new) a)
blit_front new a h =
    ap (λ x. blit x 0 new) (sym (take-append-drop (length new) a))
    ∙ blit-append new [] (take (length new) a) (drop (length new) a) 0 refl
        (omega (arith, length-take (length new) a))

-- An array that begins with the bytes of a C string and its NUL.
abbrev pub fill : Bytes → Bytes → Bytes
fill bs a = bs ++ (0 ∷ drop (suc (length bs)) a)

pub store_terminator :
    (bs a : Bytes)
    → length bs < length a
    → store (bs ++ drop (length bs) a) (length bs) 0 ≡ some (fill bs a)
store_terminator [] [] h = absurd (omega arith)
store_terminator [] (x ∷ a) h = refl
store_terminator (b ∷ bs) [] h = absurd (omega arith)
store_terminator (b ∷ bs) (x ∷ a) h =
    ap (λ m. m >>= λ ys. some (b ∷ ys)) (store_terminator bs a (omega arith))

-- What follows a string that was stored with its terminator, and one that overran its array.
module _ {A B : Type 0} (bs a : Bytes) (t : Bytes → A) (g : A → Option B) where
  pub string_fits :
      length bs < length a
      → ((blit a 0 bs >>= λ a'. store a' (length bs) 0 >>= λ a''. some (t a'')) >>= g)
        ≡ g (t (fill bs a))
  string_fits h =
      rw (blit_front bs a (omega arith))
        (ap (λ m. (m >>= λ a''. some (t a'')) >>= g) (store_terminator bs a h))

  pub string_overruns :
      length bs ≡ length a
      → ((blit a 0 bs >>= λ a'. store a' (length bs) 0 >>= λ a''. some (t a'')) >>= g) ≡ none
  string_overruns h = rw (blit_front bs a (omega arith)) (
      ap (λ m. (m >>= λ a''. some (t a'')) >>= g)
        (store_outside (bs ++ drop (length bs) a) (length bs) 0
          (omega (arith, length-append bs (drop (length bs) a), length-drop (length bs) a))))

-- Every element is a byte.
abbrev pub AreBytes : Bytes → Type 0
AreBytes [] = Unit {0}
AreBytes (c ∷ cs) = (c < 256) × AreBytes cs

pub AreBytes-append : (xs ys : Bytes) → AreBytes (xs ++ ys) → AreBytes ys
AreBytes-append [] ys h = h
AreBytes-append (x ∷ xs) ys h = AreBytes-append xs ys h.1

-- `strlen`: the bytes before the first NUL, and `none` where the array holds no NUL.
abbrev pub strlen : Bytes → Option ℕ
strlen [] = none
strlen (zero ∷ xs) = some 0
strlen (suc c ∷ xs) = strlen xs >>= λ n. some (suc n)

-- Every element is a byte of a C string, not NUL.
abbrev pub IsText : Bytes → Type 0
IsText [] = Unit {0}
IsText (c ∷ cs) = (0 < c) × IsText cs

pub strlen-append : (s post : Bytes) → IsText s → strlen (s ++ (0 ∷ post)) ≡ some (length s)
strlen-append [] post h = refl
strlen-append (zero ∷ s) post h = absurd (omega arith)
strlen-append (suc c ∷ s) post h = ap (λ m. m >>= λ n. some (suc n)) (strlen-append s post h.1)

-- A zero stored into zeroed memory changes nothing.
pub store-replicate : (m i : ℕ) → i < m → store (replicate m 0) i 0 ≡ some (replicate m 0)
store-replicate zero i h = absurd (omega arith)
store-replicate (suc m) zero h = refl
store-replicate (suc m) (suc i) h =
    ap (λ m. m >>= λ ys. some (0 ∷ ys)) (store-replicate m i (omega arith))
