-- ===== src/Portable/Private/Order.antt =====
-- The order of strings, and sorting by it.
use zorin_host_agent.Prelude.{
  ◌≡◌, refl, ap, ◌∙◌, inl, inr, true, false, ◌||◌, List, [], ◌∷◌, arith, Bool-cases, All,
}
use zorin_host_agent.Text.{Text, text_eq}
use zorin_host_agent.Portable.Private.{is_seen, text_less, insert_text, sort_texts}

pub text_less_trans :
    (s t u : Text) → text_less s t ≡ true → text_less t u ≡ true → text_less s u ≡ true
unfolding text_less
text_less_trans s t [] h k = ground arith
text_less_trans s [] (c ∷ u) h k = ground arith
text_less_trans [] (b ∷ t) (c ∷ u) h k = refl
text_less_trans (a ∷ s) (b ∷ t) (c ∷ u) h k = ground (arith, text_less_trans s t u)

pub text_less_total :
    (s t : Text) → text_less s t ≡ false → text_eq s t ≡ false → text_less t s ≡ true
unfolding text_less text_eq
text_less_total [] [] h k = ground arith
text_less_total [] (b ∷ t) h k = ground arith
text_less_total (a ∷ s) [] h k = refl
text_less_total (a ∷ s) (b ∷ t) h k = ground (arith, text_less_total s t)

-- Every text comes before all that follow it, and so is none of them.
abbrev pub IsAscending : List Text → Type 0
IsAscending [] = Unit
IsAscending (t ∷ ts) = All (λ u. text_less t u ≡ true) ts × IsAscending ts

All-insert_text :
    (P : Text → Type 0) (t : Text) (us : List Text) → P t → All P us → All P (insert_text t us)
unfolding insert_text
All-insert_text P t [] h k = (h, tt)
All-insert_text P t (u ∷ us) h k = elim (Bool-cases (text_less u t)) [
  | inl e ↦ rw e (k.0, All-insert_text P t us h k.1)
  | inr e ↦ rw e (h, k)
]

All-less_trans :
    (t u : Text) (us : List Text)
    → text_less t u ≡ true
    → All (λ v. text_less u v ≡ true) us
    → All (λ v. text_less t v ≡ true) us
All-less_trans t u [] h k = tt
All-less_trans t u (v ∷ us) h k = (text_less_trans t u v h k.0, All-less_trans t u us h k.1)

pub insert_text-IsAscending :
    (t : Text) (us : List Text)
    → IsAscending us
    → is_seen t us ≡ false
    → IsAscending (insert_text t us)
unfolding insert_text is_seen
insert_text-IsAscending t [] h k = (tt, tt)
insert_text-IsAscending t (u ∷ us) h k = elim (Bool-cases (text_less u t)) [
  | inl e ↦ rw e (All-insert_text _ t us e h.0, insert_text-IsAscending t us h.1 (ground arith))
  | inr e ↦
      let l : text_less t u ≡ true = text_less_total u t e (ground arith) in
      rw e ((l, All-less_trans t u us l h.0), h)
]

-- A text is in the list with another one inserted if it is that one or was there.
pub is_seen-insert_text :
    (x t : Text) (us : List Text) → is_seen x (insert_text t us) ≡ (text_eq t x || is_seen x us)
unfolding is_seen insert_text
is_seen-insert_text x t [] = refl
is_seen-insert_text x t (u ∷ us) = ground (arith, is_seen-insert_text x t us)

-- Sorting keeps the texts.
pub is_seen-sort_texts : (x : Text) (ts : List Text) → is_seen x (sort_texts ts) ≡ is_seen x ts
unfolding sort_texts is_seen
is_seen-sort_texts x [] = refl
is_seen-sort_texts x (t ∷ ts) =
    is_seen-insert_text x t (sort_texts ts) ∙ ap (λ b. text_eq t x || b) (is_seen-sort_texts x ts)

-- No text stands in the list twice.
abbrev pub IsDistinct : List Text → Type 0
IsDistinct [] = Unit
IsDistinct (t ∷ ts) = (is_seen t ts ≡ false) × IsDistinct ts

-- Texts that are distinct are sorted to ascending ones.
pub sort_texts-IsAscending : (ts : List Text) → IsDistinct ts → IsAscending (sort_texts ts)
unfolding sort_texts
sort_texts-IsAscending [] h = tt
sort_texts-IsAscending (t ∷ ts) h =
    insert_text-IsAscending t (sort_texts ts) (sort_texts-IsAscending ts h.1)
      (is_seen-sort_texts t ts ∙ h.0)
