-- ===== src/Reality/Ja4/Order.antt =====
-- The order of a profile's extensions does not show in its fingerprint.
use reliz_protocol.Base.{ℕ, suc, ◌≡◌, refl, ap, ◌∙◌, List, [], ◌∷◌, length, arith}
use mathlib.Core.Path.{ap₂}
use mathlib.Core.Logic.{∥∥₁_elim}
use mathlib.Core.List.{Perm, Permᴰ}
use reliz_protocol.Reality.Ja4.{Ja4Profile, insert_sorted, sort, calculate_ja4}

insert_comm :
    (x y : ℕ) (l : List ℕ)
    → insert_sorted x (insert_sorted y l) ≡ insert_sorted y (insert_sorted x l)
unfolding insert_sorted
insert_comm x y [] = ground arith
insert_comm x y (z ∷ l) = ground (arith, insert_comm x y l)

sort-perm : {xs ys : List ℕ} → Permᴰ xs ys → sort xs ≡ sort ys
unfolding sort
sort-perm Permᴰ.nil = refl
sort-perm (Permᴰ.cons e d) = ap₂ insert_sorted e (sort-perm d)
sort-perm (Permᴰ.swap {a} {b} {l = l} e f) =
    insert_comm a b (sort l) ∙ ap₂ (λ s t. insert_sorted s (insert_sorted t (sort l))) f e
sort-perm (Permᴰ.trans d d') = sort-perm d ∙ sort-perm d'

length-perm : {xs ys : List ℕ} → Permᴰ xs ys → length xs ≡ length ys
length-perm Permᴰ.nil = refl
length-perm (Permᴰ.cons e d) = ap suc (length-perm d)
length-perm (Permᴰ.swap e f) = refl
length-perm (Permᴰ.trans d d') = length-perm d ∙ length-perm d'

-- Profiles that differ in the order of their extensions only have the same fingerprint.
pub calculate_ja4-perm :
    (profile : Ja4Profile) (extensions : List ℕ)
    → Perm extensions profile.extensions
    → calculate_ja4 (record profile { extensions = extensions }) ≡ calculate_ja4 profile
unfolding calculate_ja4
calculate_ja4-perm profile extensions p =
    ∥∥₁_elim p (hlevel) (λ d. rw (length-perm d, sort-perm d) refl)
