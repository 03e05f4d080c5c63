-- ===== src/Prelude/Rehash.antt =====
-- What is read off an unordered map entry by entry is the same up to order, whatever the order of the
-- entries.
use mathlib.Core.Path.{◌≡◌, refl, subst}
use mathlib.Core.Option.{none, some}
use mathlib.Core.Logic.{inl, inr}
use mathlib.Core.List.{List, [], ◌∷◌, ◌++◌, Perm, append_assoc, perm_append_comm}
use mathlib.Core.List.Perm
use native.Mathlib.Omega.{arith}
use my_auto_sar_ap.Prelude.Tests.{Eq, ◌==◌, Bool-cases}
use my_auto_sar_ap.Prelude.Map.{
  lookup, erase, IsDistinct, erase-IsDistinct, lookup-erase, same_self,
}

swap_blocks {ℓ} : {A : Type ℓ} (xs ys zs : List A) → Perm (xs ++ (ys ++ zs)) (ys ++ (xs ++ zs))
swap_blocks xs ys zs =
    subst (λ l. Perm l (ys ++ (xs ++ zs))) (append_assoc xs ys zs)
      (subst (λ l. Perm ((xs ++ ys) ++ zs) l) (append_assoc ys xs zs)
        (Perm.append_right zs (perm_append_comm xs ys)))

module _ {ℓ κ λ'} {K : Type ℓ} {V : Type κ} {B : Type λ'} ⦃e : Eq K⦄ (g : K × V → List B) where
  -- A loop over the entries that appends what each one gives.
  abbrev pub gather : List (K × V) → List B
  gather [] = []
  gather (entry ∷ m) = g entry ++ gather m

  erase-absent : (k : K) (m : List (K × V)) → lookup k m ≡ none → erase k m ≡ m
  unfolding lookup erase
  erase-absent k [] h = refl
  erase-absent k ((j, w) ∷ m) h = ground (arith, erase-absent k m)

  gather-erase :
      (k : K) (v : V) (m : List (K × V))
      → IsDistinct m
      → lookup k m ≡ some v
      → Perm (gather m) (g (k, v) ++ gather (erase k m))
  unfolding lookup erase
  gather-erase k v [] d h = ground arith
  gather-erase k v ((j, w) ∷ m) d h = elim (Bool-cases (j == k)) [
    | inl here ↦
        let key : j ≡ k = (e.same_iff j k).0 here in
        let value : w ≡ v = ground arith in
        let gone : lookup k m ≡ none = subst (λ i. lookup i m ≡ none) key d.0 in
        rw (here, erase-absent k m gone, key, value) (Perm.refl _)
    | inr there ↦
        let rest = gather-erase k v m d.1 (ground arith) in
        rw there (
          Perm.trans (Perm.append_left (g (j, w)) rest)
            (swap_blocks (g (j, w)) (g (k, v)) (gather (erase k m))))
  ]

  pub gather-Perm :
      (m n : List (K × V))
      → IsDistinct m
      → IsDistinct n
      → ((k : K) → lookup k m ≡ lookup k n)
      → Perm (gather m) (gather n)
  unfolding lookup
  gather-Perm [] [] d f same = Perm.refl []
  gather-Perm [] ((j, w) ∷ n) d f same = absurd (ground (arith, same j, same_self j))
  gather-Perm ((k, v) ∷ m) n d f same =
      let stored : lookup k n ≡ some v = ground (arith, same k, same_self k) in
      let rest =
        gather-Perm m (erase k n) d.1 (erase-IsDistinct k n f)
          (λ i. ground (arith, same i, lookup-erase k i n, e.same_iff k i)) in
      Perm.trans (Perm.append_left (g (k, v)) rest) (Perm.symm (gather-erase k v n f stored))
