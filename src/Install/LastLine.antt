-- ===== src/Install/LastLine.antt =====
-- install/installer.go: the last part of a text that is split at a byte.
use pact_go.Common.{
  ℕ, Text, [], ◌∷◌, ◌++◌, append_assoc, append-nil, ◌≡◌, ◌⊎◌, inl, inr, refl, sym, ap, ◌∙◌, ◌==◌,
  true, arith, split, split_from, Bool-cases,
}
use pact_go.Common.Lists.{All-append}
use pact_go.Common.Split.{LacksByte, split-LacksByte}
use pact_go.Install.{last}

-- The text is the part, or ends with the byte and the part, in which the byte does not stand.
pub record IsLastPart (sep : ℕ) (s part : Text) : Type 0 where
  pub lacks : LacksByte sep part
  pub ends : (s ≡ part) ⊎ ((before : Text) × (s ≡ before ++ sep ∷ part))

last-split_from :
    (sep : ℕ) (part cur s : Text) → last (part ∷ split_from sep cur s) ≡ last (split_from sep cur s)
unfolding split_from
last-split_from sep part cur [] = refl
last-split_from sep part cur (c ∷ s) = elim (Bool-cases (c == sep)) [
  | inl same ↦ rw same refl
  | inr differs ↦ rw differs (last-split_from sep part (cur ++ c ∷ []) s)
]

last_from-IsLastPart :
    (sep : ℕ) (cur s : Text)
    → LacksByte sep cur
    → IsLastPart sep (cur ++ s) (last (split_from sep cur s))
unfolding split_from
last_from-IsLastPart sep cur [] h = record { lacks = h; ends = inl (append-nil cur) }
last_from-IsLastPart sep cur (c ∷ s) h = elim (Bool-cases (c == sep)) [
  | inl same ↦
      let e : c ≡ sep = ground arith in
      let rest = last_from-IsLastPart sep [] s tt in
      rw (same, last-split_from sep cur [] s)
        (record {
          lacks = rest.lacks;
          ends = elim rest.ends [
            | inl all ↦ inr (cur, λ i. cur ++ e i ∷ all i)
            | inr (before, q) ↦ inr (
              cur ++ sep ∷ before,
              (λ i. cur ++ e i ∷ q i)
                  ∙ sym (append_assoc cur (sep ∷ before) (sep ∷ last (split_from sep [] s))),
            )
          ];
        })
  | inr differs ↦
      let fresh = All-append _ cur (c ∷ []) h (ground arith, tt) in
      rw (differs, ← append_assoc cur (c ∷ []) s) (last_from-IsLastPart sep (cur ++ c ∷ []) s fresh)
]

pub last-split-IsLastPart : (sep : ℕ) (s : Text) → IsLastPart sep s (last (split s sep))
unfolding split
last-split-IsLastPart sep s = last_from-IsLastPart sep [] s tt

last_from-append :
    (sep : ℕ) (cur before part : Text)
    → LacksByte sep part
    → last (split_from sep cur (before ++ sep ∷ part)) ≡ part
unfolding split_from
last_from-append sep cur [] part h =
    let same : (sep == sep) ≡ true = ground arith in
    rw (same, last-split_from sep cur [] part)
      (unfold split in ap last (split-LacksByte sep part h))
last_from-append sep cur (c ∷ before) part h = elim (Bool-cases (c == sep)) [
  | inl same ↦
      rw (same, last-split_from sep cur [] (before ++ sep ∷ part))
        (last_from-append sep [] before part h)
  | inr differs ↦ rw differs (last_from-append sep (cur ++ c ∷ []) before part h)
]

-- There is one last part.
pub IsLastPart-last : (sep : ℕ) (s part : Text) → IsLastPart sep s part → last (split s sep) ≡ part
unfolding split
IsLastPart-last sep s part h = elim h.ends [
  | inl all ↦ ap (λ t. last (split t sep)) all ∙ ap last (split-LacksByte sep part h.lacks)
  | inr (before, q) ↦ ap (λ t. last (split t sep)) q ∙ last_from-append sep [] before part h.lacks
]
