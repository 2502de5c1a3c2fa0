-- ===== src/Logs/Lines.antt =====
-- engine/logs.py: the lines of a file to which whole events were written, and what is read of it.
use mathlib.Core.List.{append_assoc, append-nil}
use forge_ci_cd_platform.Base.{
  ◌≡◌, refl, sym, ◌∙◌, ◌⊎◌, inl, inr, List, [], ◌∷◌, ◌++◌, Option, none, some, true, false, not,
  arith, Str, all, map, length, length-append,
}
use forge_ci_cd_platform.Text.{is_nil, strip, drop}
use forge_ci_cd_platform.Text.Strip.{strip-line}
use forge_ci_cd_platform.Logs.{
  is_line_break, splitlines, text_or, iter_file_from, payload, frame, event_of, frames,
}

-- A text without line breaks, and a line break: one line.
splitlines-line :
    (s rest : Str)
    → all (λ c. not (is_line_break c)) s ≡ true
    → splitlines (s ++ 10 ∷ rest) ≡ (s ++ 10 ∷ []) ∷ splitlines rest
splitlines-line [] rest h = refl
splitlines-line (c ∷ s) rest h =
    let solid : is_line_break c ≡ false = ground (arith, h) in
    rw (splitlines-line s rest (ground (arith, h)), solid) refl

pub drop-length : (xs ys : Str) → drop (length xs) (xs ++ ys) ≡ ys
drop-length [] ys = refl
drop-length (x ∷ xs) ys = drop-length xs ys

module _ {J : Type 0} (loads : Str → Option J) (dumps : J → Str) (event : Str → Str → Str → J) where
  -- What the log asks of the JSON library: it reads what it writes, which is one line that neither
  -- starts nor ends with whitespace.
  pub record IsJson : Type 0 where
    pub reads : (e : J) → loads (dumps e) ≡ some e
    pub trimmed : (e : J) → strip (dumps e) ≡ dumps e
    pub full : (e : J) → is_nil (dumps e) ≡ false
    pub one_line : (e : J) → all (λ c. not (is_line_break c)) (dumps e) ≡ true

  -- The text of a file to which these events were written.
  pub written : List J → Str
  written [] = []
  written (e ∷ es) = payload loads dumps event e ++ written es

  -- The file, which the first event creates.
  pub log_of : List J → Option Str
  log_of [] = none
  log_of (e ∷ es) = some (written (e ∷ es))

  pub written-append : (es fs : List J) → written (es ++ fs) ≡ written es ++ written fs
  unfolding written
  written-append [] fs = refl
  written-append (e ∷ es) fs =
      rw (written-append es fs)
        (sym (append_assoc (payload loads dumps event e) (written es) (written fs)))

  pub log_of-cases : (es : List J) → (es ≡ []) ⊎ (log_of es ≡ some (written es))
  unfolding log_of
  log_of-cases [] = inl refl
  log_of-cases (e ∷ es) = inr refl

  pub splitlines-written :
      IsJson → (es : List J) → splitlines (written es) ≡ map (payload loads dumps event) es
  unfolding written
  splitlines-written json [] = refl
  splitlines-written json (e ∷ es) =
      let split = splitlines-line (dumps e) (written es) (json.one_line e) in
      let glue : payload loads dumps event e ++ written es ≡ dumps e ++ 10 ∷ written es =
        append_assoc (dumps e) (10 ∷ []) (written es) in
      rw (glue, split, splitlines-written json es) refl

  -- A log without events: no file, and no text.
  pub log_of-nil : (none ≡ log_of []) × (0 ≡ length (written []))
  unfolding log_of written
  log_of-nil = (refl, refl)

  pub text_or-log_of : (es : List J) → text_or [] (log_of es) ≡ written es
  unfolding log_of written
  text_or-log_of [] = refl
  text_or-log_of (e ∷ es) = refl

  pub log_of-snoc : (es : List J) (e : J) → log_of (es ++ e ∷ []) ≡ some (written (es ++ e ∷ []))
  unfolding log_of
  log_of-snoc [] e = refl
  log_of-snoc (x ∷ es) e = refl

  pub written-one : (e : J) → written (e ∷ []) ≡ payload loads dumps event e
  unfolding written
  written-one e = append-nil (payload loads dumps event e)

  iter_file_from-missing :
      (es fs : List J)
      → es ++ fs ≡ []
      → iter_file_from (log_of (es ++ fs)) (length (written es))
        ≡ (map (payload loads dumps event) fs, length (written (es ++ fs)))
  unfolding iter_file_from log_of written
  iter_file_from-missing [] [] h = refl
  iter_file_from-missing [] (f ∷ fs) h = absurd (cc (h))
  iter_file_from-missing (e ∷ es) fs h = absurd (cc (h))

  -- What is read from where the events so far end: the lines of the events since.
  pub iter_file_from-log_of :
      IsJson
      → (es fs : List J)
      → iter_file_from (log_of (es ++ fs)) (length (written es))
        ≡ (map (payload loads dumps event) fs, length (written (es ++ fs)))
  unfolding iter_file_from
  iter_file_from-log_of json es fs = elim (log_of-cases (es ++ fs)) [
    | inl e ↦ iter_file_from-missing es fs e
    | inr e ↦
        rw
          (
            e,
            written-append es fs,
            drop-length (written es) (written fs),
            splitlines-written json fs,
            length-append (written es) (written fs),
          )
          refl
  ]

  module _ (now : Str) where
    pub frames-payloads :
        IsJson
        → (es : List J)
        → frames loads dumps event now (map (payload loads dumps event) es)
          ≡ map (frame loads dumps event now) es
    unfolding frames
    frames-payloads json [] = refl
    frames-payloads json (e ∷ es) =
        let raw : strip (payload loads dumps event e) ≡ dumps e =
          strip-line (dumps e) ∙ json.trimmed e in
        let found : event_of loads dumps event now (dumps e) ≡ e =
          rw (json.reads e, event_of) refl in
        rw (raw, json.full e, found, frames-payloads json es) refl
