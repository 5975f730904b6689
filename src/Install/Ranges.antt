-- ===== src/Install/Ranges.antt =====
-- install/installer.go: which tools `CheckInstallation` accepts, in any order of its map.
use pact_go.Common.{
  Text, bytes, text_eq, trim_space, split, Error, ok, true, Option, none, some, List, [], ◌∷◌, ◌≡◌,
  ◌↔◌, refl, ap, ◌∙◌, inl, inr, Bool-cases, Option-cases, Result-cases,
}
use pact_go.Common.Lists.{All}
use mathlib.Core.List.{Permᴰ}
use pact_go.Common.Perms.{All-Permᴰ}
use pact_go.Install.{
  version_map, range_of, Commander, last, get_version_for_binary, check_range, check_parsed,
  check_version, check_binary, check_entries,
}
use pact_go.Install.LastLine.{IsLastPart, last-split-IsLastPart, IsLastPart-last}

module _ {Version : Type 0} (commander : Commander Version) where
  -- The tool runs, and the last line of what it prints, but for space at the ends of both, is a
  -- version within the range.
  pub record IsWithin (binary range : Text) : Type 0 where
    pub content : Text
    pub runs : commander.output binary ≡ (content, none)
    pub line : Text
    pub last_line : IsLastPart b'\n' (trim_space content) line
    pub version : Version
    pub parsed : commander.new_version (trim_space line) ≡ ok version
    pub satisfied : commander.satisfies range version ≡ true

  get_version_inv :
      (binary printed : Text)
      → get_version_for_binary commander binary ≡ (printed, none)
      → (content : Text) × (line : Text) × (commander.output binary ≡ (content, none))
        × IsLastPart b'\n' (trim_space content) line
        × (trim_space line ≡ printed)
  unfolding get_version_for_binary
  get_version_inv binary printed h =
      let content = (commander.output binary).0 in
      (
        content,
        last (split (trim_space content) b'\n'),
        λ i. (content, (h i).1),
        last-split-IsLastPart b'\n' (trim_space content),
        λ i. (h i).0,
      )

  get_version_last :
      (binary content line : Text)
      → commander.output binary ≡ (content, none)
      → IsLastPart b'\n' (trim_space content) line
      → get_version_for_binary commander binary ≡ (trim_space line, none)
  unfolding get_version_for_binary
  get_version_last binary content line runs h = λ i. (
    ((λ j. trim_space (last (split (trim_space (runs j).0) b'\n')))
          ∙ ap trim_space (IsLastPart-last b'\n' (trim_space content) line h))
        i,
    (runs i).1,
  )

  check_range_iff :
      (binary printed range : Text) (v : Version) (found : Option Text)
      → found ≡ some range
      → (check_range commander binary printed v found ≡ none) ↔ (commander.satisfies range v ≡ true)
  unfolding check_range
  check_range_iff binary printed range v none q = absurd (cc)
  check_range_iff binary printed range v (some r) q =
      let same : r ≡ range = ap (λ (o : Option Text). elim o [ some x ↦ x | none ↦ r ]) q in
      rw same (elim (Bool-cases (commander.satisfies range v)) [
        | inl holds ↦ rw holds (λ e. refl, λ e. refl)
        | inr fails ↦ rw fails (λ e. absurd (cc), λ e. absurd (cc))
      ])

  check_binary_inv :
      (binary range : Text) (r : Text × Option Error)
      → range_of binary version_map ≡ some range
      → get_version_for_binary commander binary ≡ r
      → check_binary commander binary r ≡ none
      → IsWithin binary range
  unfolding check_binary check_version check_parsed
  check_binary_inv binary range (printed, some e) known runs h = absurd (cc)
  check_binary_inv binary range (printed, none) known runs h =
      elim (Result-cases (commander.new_version printed)) [
        | inl (e, q) ↦ absurd (cc (rw (q, check_parsed) at h))
        | inr (v, q) ↦
            let (content, line, ran, ends, same) = get_version_inv binary printed runs in
            record {
              content = content;
              runs = ran;
              line = line;
              last_line = ends;
              version = v;
              parsed = ap commander.new_version same ∙ q;
              satisfied =
                  (check_range_iff binary printed range v _ known).0 (rw (q, check_parsed) at h);
            }
      ]

  within_check :
      (binary range : Text)
      → range_of binary version_map ≡ some range
      → IsWithin binary range
      → check_binary commander binary (get_version_for_binary commander binary) ≡ none
  unfolding check_binary check_version
  within_check binary range known w =
      ap (check_binary commander binary)
        (get_version_last binary w.content w.line w.runs w.last_line)
      ∙ ap (check_parsed commander binary (trim_space w.line)) w.parsed
      ∙ unfold check_parsed in
        (check_range_iff binary (trim_space w.line) range w.version _ known).1 w.satisfied

  -- An entry of the map, and the tool within its range.
  abbrev Known : Text × Text → Type 0
  Known entry = range_of entry.0 version_map ≡ some entry.1

  abbrev pub Within : Text × Text → Type 0
  Within entry = IsWithin entry.0 entry.1

  check_entries_iff :
      (entries : List (Text × Text))
      → All Known entries
      → (check_entries commander entries ≡ none) ↔ All Within entries
  unfolding check_entries
  check_entries_iff [] known = (λ e. tt, λ e. refl)
  check_entries_iff ((binary, range) ∷ entries) (k, known) =
      let rest = check_entries_iff entries known in
      (
        λ h.
            elim (Option-cases
              (check_binary commander binary (get_version_for_binary commander binary))) [
                | inl fine ↦ (
                  check_binary_inv binary range _ k refl fine,
                  rest.0 (rw (fine, check_entries) at h),
                )
                | inr (e, q) ↦ absurd (cc (rw (q, check_entries) at h))
              ],
        λ (w, ws). rw (within_check binary range k w, check_entries) (rest.1 ws),
      )

  version_map-Known : All Known version_map
  unfolding version_map range_of text_eq bytes
  version_map-Known = (refl, (refl, (refl, tt)))

  -- Whatever the order in which the map is gone through, `CheckInstallation` returns no error
  -- exactly if each of the three tools runs with no error and prints, on its last line, a version
  -- within the range for it: from 3.5.0 and below 4.0.0 for the mock service, from 1.31.0 and below
  -- 2.0.0 for the verifier, and from 1.22.3 for the broker.
  pub check_installation_iff :
      (entries : List (Text × Text))
      → Permᴰ version_map entries
      → (check_entries commander entries ≡ none) ↔ (
          IsWithin (bytes "pact-mock-service") (bytes ">= 3.5.0, < 4.0.0")
          × IsWithin (bytes "pact-provider-verifier") (bytes ">= 1.31.0, < 2.0.0")
          × IsWithin (bytes "pact-broker") (bytes ">= 1.22.3"))
  unfolding version_map
  check_installation_iff entries p =
      let (known, _) = All-Permᴰ Known p in
      let (f, g) = All-Permᴰ Within p in
      let (there, back) = check_entries_iff entries (known version_map-Known) in
      (
        λ e. let (a, (b, (c, _))) = g (there e) in (a, b, c),
        λ (a, b, c). back (f (a, (b, (c, tt)))),
      )
