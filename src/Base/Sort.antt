-- ===== src/Base/Sort.antt =====
-- `sort.Strings`: lexicographic order, and what sorting keeps.
use mathlib.Core.List.{Perm}
use mathlib.Core.List.Perm
use kal.Base.{
  Bool, true, false, ◌&&◌, ◌||◌, List, [], ◌∷◌, ◌≡◌, refl, ap, ◌∙◌, inl, inr, arith, Text, any, All,
  All-mono, if◌then◌else◌, ltb, ◌==◌, Bool-cases,
}

-- A lexicographic `sort.Strings`.
unfoldable pub text_leb : Text → Text → Bool
text_leb [] t = true
text_leb (c ∷ s) [] = false
text_leb (c ∷ s) (d ∷ t) = ltb c d || (c == d && text_leb s t)

unfoldable pub insert_text : Text → List Text → List Text
insert_text s [] = s ∷ []
insert_text s (t ∷ ts) =
    let later = t ∷ insert_text s ts in if text_leb s t then s ∷ (t ∷ ts) else later

unfoldable pub sort_texts : List Text → List Text
unfolding insert_text text_leb
sort_texts [] = []
sort_texts (s ∷ ss) = insert_text s (sort_texts ss)

any-insert_text :
    (p : Text → Bool) (s : Text) (ts : List Text) → any p (insert_text s ts) ≡ (p s || any p ts)
unfolding any insert_text
any-insert_text p s [] = refl
any-insert_text p s (t ∷ ts) = ground (arith, any-insert_text p s ts)

pub any-sort_texts : (p : Text → Bool) (ts : List Text) → any p (sort_texts ts) ≡ any p ts
unfolding any sort_texts
any-sort_texts p [] = refl
any-sort_texts p (t ∷ ts) =
    any-insert_text p t (sort_texts ts) ∙ ap (λ b. p t || b) (any-sort_texts p ts)

module _ {ℓ} (P : Text → Type ℓ) where
  All-insert_text : (s : Text) (ts : List Text) → P s → All P ts → All P (insert_text s ts)
  unfolding insert_text
  All-insert_text s [] h k = (h, tt)
  All-insert_text s (t ∷ ts) h k = elim (Bool-cases (text_leb s t)) [
    | inl e ↦ rw e (h, k)
    | inr e ↦ rw e (k.0, All-insert_text s ts h k.1)
  ]

  pub All-sort_texts : (ts : List Text) → All P ts → All P (sort_texts ts)
  unfolding sort_texts
  All-sort_texts [] h = tt
  All-sort_texts (t ∷ ts) h = All-insert_text t (sort_texts ts) h.0 (All-sort_texts ts h.1)

text_leb_total : (s t : Text) → text_leb s t ≡ false → text_leb t s ≡ true
unfolding text_leb
text_leb_total [] t h = cc
text_leb_total (c ∷ s) [] h = refl
text_leb_total (c ∷ s) (d ∷ t) h = ground (arith, text_leb_total s t)

text_leb_trans : (s t u : Text) → text_leb s t ≡ true → text_leb t u ≡ true → text_leb s u ≡ true
unfolding text_leb
text_leb_trans [] t u h k = refl
text_leb_trans (c ∷ s) [] u h k = cc
text_leb_trans (c ∷ s) (d ∷ t) [] h k = cc
text_leb_trans (c ∷ s) (d ∷ t) (e ∷ u) h k = ground (arith, text_leb_trans s t u)

-- No element is greater than a later one.
abbrev pub IsSorted : List Text → Type 0
IsSorted [] = Unit
IsSorted (t ∷ ts) = All (λ u. text_leb t u ≡ true) ts × IsSorted ts

insert_text-IsSorted : (s : Text) (ts : List Text) → IsSorted ts → IsSorted (insert_text s ts)
unfolding insert_text
insert_text-IsSorted s [] h = (tt, tt)
insert_text-IsSorted s (t ∷ ts) h = elim (Bool-cases (text_leb s t)) [
  | inl e ↦ rw e ((e, All-mono _ _ ts (λ u k. text_leb_trans s t u e k) h.0), h)
  | inr e ↦ rw e (
    All-insert_text (λ u. text_leb t u ≡ true) s ts (text_leb_total s t e) h.0,
    insert_text-IsSorted s ts h.1,
  )
]

pub sort_texts-IsSorted : (ts : List Text) → IsSorted (sort_texts ts)
unfolding sort_texts
sort_texts-IsSorted [] = tt
sort_texts-IsSorted (t ∷ ts) = insert_text-IsSorted t (sort_texts ts) (sort_texts-IsSorted ts)

insert_text-Perm : (s : Text) (ts : List Text) → Perm (insert_text s ts) (s ∷ ts)
unfolding insert_text
insert_text-Perm s [] = Perm.refl (s ∷ [])
insert_text-Perm s (t ∷ ts) = elim (Bool-cases (text_leb s t)) [
  | inl e ↦ rw e (Perm.refl (s ∷ t ∷ ts))
  | inr e ↦ rw e (Perm.trans (Perm.cons t (insert_text-Perm s ts)) (Perm.swap s t ts))
]

pub sort_texts-Perm : (ts : List Text) → Perm (sort_texts ts) ts
unfolding sort_texts
sort_texts-Perm [] = Perm.nil
sort_texts-Perm (t ∷ ts) =
    Perm.trans (insert_text-Perm t (sort_texts ts)) (Perm.cons t (sort_texts-Perm ts))
