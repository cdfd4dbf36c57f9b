-- ===== src/Agents/FileAgent/Diff/Applies.antt =====
-- A patch that is written from an edit script turns the old text into the new one.
use agent_of_record.Common.{
  ℕ, suc, ◌+◌, ◌-◌, String, ◌≡◌, refl, sym, ap, ◌∙◌, true, false, Option, some, List, [], ◌∷◌, ◌++◌,
  map, append-nil, append_assoc, arith, nat_eq, string_eq, list_eq, option_eq, length, get_elem?,
  drop, length-append, take-append, All, ok,
}
use mathlib.Core.Path.{subst}
use Prim.Native.Char.{Char}
use agent_of_record.Common.Text.{split_lines, join, starts_with}
use agent_of_record.Json.{pos}
use agent_of_record.Agents.FileAgent.Diff.{
  hunks, hunk_start, slice, check_line, apply_line, apply_hunk_lines, apply_hunk, apply_hunks,
  apply_lines, apply_unified_diff,
}

-- A line of a hunk.
pub data Edit : Type 0 where
  same deleted added : String → Edit

-- A hunk of a script: the lines that are skipped before it, its header, and its edits.
pub record Part : Type 0 where
  pub skipped : List String
  pub header : String
  pub edits : List Edit

abbrev pub old_lines : List Edit → List String
old_lines [] = []
old_lines (same s ∷ edits) = s ∷ old_lines edits
old_lines (deleted s ∷ edits) = s ∷ old_lines edits
old_lines (added s ∷ edits) = old_lines edits

abbrev pub new_lines : List Edit → List String
new_lines [] = []
new_lines (same s ∷ edits) = s ∷ new_lines edits
new_lines (deleted s ∷ edits) = new_lines edits
new_lines (added s ∷ edits) = s ∷ new_lines edits

abbrev pub printed_edit : Edit → String
printed_edit (same s) = String.◌∷◌ " " s
printed_edit (deleted s) = String.◌∷◌ "-" s
printed_edit (added s) = String.◌∷◌ "+" s

abbrev pub old_text : List Part → List String → List String
old_text [] rest = rest
old_text (part ∷ parts) rest = part.skipped ++ (old_lines part.edits ++ old_text parts rest)

abbrev pub new_text : List Part → List String → List String
new_text [] rest = rest
new_text (part ∷ parts) rest = part.skipped ++ (new_lines part.edits ++ new_text parts rest)

abbrev pub printed : List Part → List String
printed [] = []
printed (part ∷ parts) = part.header ∷ (map printed_edit part.edits ++ printed parts)

abbrev pub grouped : List Part → List (String × List String)
grouped [] = []
grouped (part ∷ parts) = (part.header, map printed_edit part.edits) ∷ grouped parts

-- Each header begins a hunk and says at which line of the old text its edits start.
abbrev pub AreHeaders : (Char → Option ℕ) → ℕ → List Part → Type 0
AreHeaders digit line [] = Unit
AreHeaders digit line (part ∷ parts) =
    let start = line + length part.skipped in
    (starts_with "@@ " part.header ≡ true)
    × (hunk_start digit part.header ≡ ok (suc start))
    × AreHeaders digit (start + length (old_lines part.edits)) parts

hunks-edits :
    (edits : List Edit) (lines : List String)
    → hunks (map printed_edit edits ++ lines)
      ≡ (map printed_edit edits ++ (hunks lines).0, (hunks lines).1)
unfolding hunks starts_with
hunks-edits [] lines = refl
hunks-edits (same s ∷ edits) lines = ground (arith, hunks-edits edits lines)
hunks-edits (deleted s ∷ edits) lines = ground (arith, hunks-edits edits lines)
hunks-edits (added s ∷ edits) lines = ground (arith, hunks-edits edits lines)

hunks-printed :
    (digit : Char → Option ℕ) (line : ℕ) (parts : List Part)
    → AreHeaders digit line parts
    → hunks (printed parts) ≡ ([], grouped parts)
unfolding hunks
hunks-printed digit line [] h = refl
hunks-printed digit line (part ∷ parts) h =
    let start = line + length part.skipped in
    ground (
      arith,
      hunks-edits part.edits (printed parts),
      append-nil (map printed_edit part.edits),
      hunks-printed digit (start + length (old_lines part.edits)) parts h.2,
    )

-- Lines before the first hunk, such as the names of the files, do nothing.
hunks-before :
    (before lines : List String)
    → All (λ line. starts_with "@@ " line ≡ false) before
    → (hunks (before ++ lines)).1 ≡ (hunks lines).1
unfolding hunks
hunks-before [] lines h = refl
hunks-before (line ∷ before) lines h = ground (arith, hunks-before before lines)

get_elem?-append_right :
    (xs : List String) (y : String) (ys : List String)
    → get_elem? (xs ++ y ∷ ys) (length xs) ≡ some y
get_elem?-append_right [] y ys = refl
get_elem?-append_right (x ∷ xs) y ys = get_elem?-append_right xs y ys

drop-append : (xs ys : List String) → drop (length xs) (xs ++ ys) ≡ ys
drop-append [] ys = refl
drop-append (x ∷ xs) ys = drop-append xs ys

check_line_ok :
    (original done : List String) (s : String) (rest : List String) (mismatch : String)
    → original ≡ done ++ s ∷ rest
    → check_line original (pos (length done)) s mismatch ≡ ok tt
unfolding check_line
check_line_ok original done s rest mismatch e = rw e (
    ground (
      arith,
      get_elem?-append_right done s rest,
      length-append done (s ∷ rest),
      string_eq.beq_iff s s,
    ))

apply_edits :
    (original done : List String) (edits : List Edit) (rest out : List String)
    → original ≡ done ++ (old_lines edits ++ rest)
    → apply_hunk_lines original (out, pos (length done)) (map printed_edit edits)
      ≡ ok (out ++ new_lines edits, pos (length done + length (old_lines edits)))
unfolding apply_hunk_lines apply_line
apply_edits original done [] rest out e = ground (arith, append-nil out)
apply_edits original done (same s ∷ edits) rest out e =
    let kept = check_line_ok original done s (old_lines edits ++ rest) "patch_context_mismatch" e in
    let later =
      apply_edits original (done ++ s ∷ []) edits rest (out ++ s ∷ [])
        (e ∙ sym (append_assoc done (s ∷ []) (old_lines edits ++ rest))) in
    ground
      (arith, kept, later, length-append done (s ∷ []), append_assoc out (s ∷ []) (new_lines edits))
apply_edits original done (deleted s ∷ edits) rest out e =
    let kept = check_line_ok original done s (old_lines edits ++ rest) "patch_delete_mismatch" e in
    let later =
      apply_edits original (done ++ s ∷ []) edits rest out
        (e ∙ sym (append_assoc done (s ∷ []) (old_lines edits ++ rest))) in
    ground (arith, kept, later, length-append done (s ∷ []))
apply_edits original done (added s ∷ edits) rest out e =
    let later = apply_edits original done edits rest (out ++ s ∷ []) e in
    ground (arith, later, append_assoc out (s ∷ []) (new_lines edits))

slice_skipped :
    (original done skipped rest : List String)
    → original ≡ done ++ (skipped ++ rest)
    → slice original (pos (length done)) (pos (length done + length skipped)) ≡ skipped
slice_skipped original done skipped rest e =
    rw (e, drop-append done (skipped ++ rest))
      (let width : length done + length skipped - length done ≡ length skipped = omega arith in
        rw width (take-append skipped rest))

-- Where the hunks leave the output and the index: with the rest of the old text behind, the output is
-- the new text.
apply_parts :
    (digit : Char → Option ℕ) (original done : List String) (parts : List Part)
    (rest out : List String)
    → original ≡ done ++ old_text parts rest
    → AreHeaders digit (length done) parts
    → (last : List String) × (n : ℕ) × (apply_hunks digit original
          (out, pos (length done))
          (grouped parts)
        ≡ ok (last, pos n))
      × (last ++ drop n original ≡ out ++ new_text parts rest)
unfolding apply_hunks apply_hunk
apply_parts digit original done [] rest out e h =
    (out, length done, refl, rw (e, drop-append done rest) refl)
apply_parts digit original done (part ∷ parts) rest out e h =
    let edits = part.edits in
    let skipped = part.skipped in
    let behind = old_text parts rest in
    let copied = slice_skipped original done skipped (old_lines edits ++ behind) e in
    let one : original ≡ (done ++ skipped) ++ (old_lines edits ++ behind) =
      e ∙ sym (append_assoc done skipped (old_lines edits ++ behind)) in
    let two : original ≡ ((done ++ skipped) ++ old_lines edits) ++ behind =
      one ∙ sym (append_assoc (done ++ skipped) (old_lines edits) behind) in
    let long = length-append done skipped in
    let longer = length-append (done ++ skipped) (old_lines edits) in
    let run = apply_edits original (done ++ skipped) edits behind (out ++ skipped) one in
    let out' = (out ++ skipped) ++ new_lines edits in
    let (last, n, later, whole) =
      apply_parts digit original ((done ++ skipped) ++ old_lines edits) parts rest out' two
        (subst (λ line. AreHeaders digit line parts) (omega (arith, long, longer)) h.2) in
    (
      last,
      n,
      ground (arith, h.1, copied, run, later, long, longer),
      whole
          ∙ (append_assoc (out ++ skipped) (new_lines edits) (new_text parts rest)
              ∙ append_assoc out skipped (new_lines edits ++ new_text parts rest)),
    )

-- A patch of at least one hunk, behind any lines that begin none, turns the lines of the old text into
-- those of the new: what the script skips and what is left over stays, its kept lines stay, its deleted
-- lines go, and its added lines come in their place.
pub apply_lines-printed :
    (digit : Char → Option ℕ) (before : List String) (part : Part) (parts : List Part)
    (rest : List String)
    → All (λ line. starts_with "@@ " line ≡ false) before
    → AreHeaders digit 0 (part ∷ parts)
    → apply_lines digit (old_text (part ∷ parts) rest) (before ++ printed (part ∷ parts))
      ≡ ok (new_text (part ∷ parts) rest)
unfolding apply_lines
apply_lines-printed digit before part parts rest plain h =
    let original = old_text (part ∷ parts) rest in
    let found =
      hunks-before before (printed (part ∷ parts)) plain
      ∙ ap (λ r. r.1) (hunks-printed digit 0 (part ∷ parts) h) in
    let (last, n, run, whole) = apply_parts digit original [] (part ∷ parts) rest [] refl h in
    ground (arith, found, run, whole)

-- The same of the texts whose lines these are: the result is the new lines, one behind the other.
pub apply_unified_diff-printed :
    (digit : Char → Option ℕ) (original patch : String) (before : List String) (part : Part)
    (parts : List Part) (rest : List String)
    → split_lines original ≡ old_text (part ∷ parts) rest
    → split_lines patch ≡ before ++ printed (part ∷ parts)
    → All (λ line. starts_with "@@ " line ≡ false) before
    → AreHeaders digit 0 (part ∷ parts)
    → apply_unified_diff digit original patch ≡ ok (join (new_text (part ∷ parts) rest))
unfolding apply_unified_diff
apply_unified_diff-printed digit original patch before part parts rest o p plain h =
    ground (arith, apply_lines-printed digit before part parts rest plain h)
