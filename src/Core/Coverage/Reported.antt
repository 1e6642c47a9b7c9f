-- ===== src/Core/Coverage/Reported.antt =====
-- `parse_lcov` of coverage.rs against a reading of the tracefile that keeps no sections.
use ovecc.Prelude.{
  ℕ, ◌≡◌, refl, sym, ap, ◌∙◌, Bool, Option, none, some, List, [], ◌∷◌, if◌then◌else◌, list_eqb,
  nat_eqb, nat_eq, list_eq, nat_ord, lookup, Bool-cases, inl, inr,
}
use ovecc.Text.{Text, codes, split_at}
use ovecc.Core.Coverage.Records.{Section}
use ovecc.Core.Coverage.Lcov.{
  Trace, close_section, open_at, read_tagged, read_line, read_lines, sections_of, trimmed_lines,
  relative_to_root,
}
use ovecc.Core.Coverage.Merged.{
  most, most_assoc, most-none, hits_in, Tidy, TidyCurrent, current_hits, Tidy-close, hits_in-close,
}
use ovecc.Core.Coverage.Events.{
  Event, path_of, still_open, said, da_of, current_hits-open_at, said-silent, extend_lem, ends,
  begins, reports,
}

module _ (has_root : Text → Bool) (root : Text) where
  -- A line by its tag and its value.
  abbrev pub tagged_event : Option (Text × Text) → Event
  tagged_event none = reports none
  tagged_event (some (tag, value)) =
      if list_eqb tag (codes "SF")
      then begins (relative_to_root has_root root value)
      else reports (da_of tag value)

  abbrev pub event_of : Text → Event
  event_of line =
      if list_eqb line (codes "end_of_record")
      then ends
      else tagged_event (split_at (λ c. nat_eqb c b':') line)

  -- The most hits of the line of the file that any report names, if one does.
  abbrev pub reported : Text → ℕ → Option Text → List Text → Option ℕ
  reported path line open_ [] = none
  reported path line open_ (t ∷ ts) =
      most (said path line open_ (event_of t))
        (reported path line (still_open open_ (event_of t)) ts)

  abbrev seen : Trace → Text → ℕ → Option ℕ
  seen trace path line =
      most (hits_in (lookup path trace.files) line) (current_hits trace.current path line)

  -- The trace after a line, against what the line says.
  record Follows (trace next : Trace) (event : Event) (path : Text) (line : ℕ) : Type 0 where
    tidy : Tidy next.files
    tidy_current : TidyCurrent next.current
    open_path : path_of next.current ≡ still_open (path_of trace.current) event
    hits :
        seen next path line
        ≡ most (seen trace path line) (said path line (path_of trace.current) event)

  TidyCurrent-open_at : (o : Option Text) → TidyCurrent (open_at o)
  TidyCurrent-open_at none = tt
  TidyCurrent-open_at (some p) = tt

  path_of-open_at : (o : Option Text) → path_of (open_at o) ≡ o
  path_of-open_at none = refl
  path_of-open_at (some p) = refl

  module _ (trace : Trace) (path : Text) (line : ℕ) (tidy : Tidy trace.files)
      (open_ : TidyCurrent trace.current) where
    closed_hits :
        (next : Option (Text × Section))
        → current_hits next path line ≡ none
        → most
            (hits_in (lookup path (close_section trace.files trace.current)) line)
            (current_hits next path line)
          ≡ most (seen trace path line) none
    closed_hits next fresh =
        ap (most (hits_in (lookup path (close_section trace.files trace.current)) line)) fresh
        ∙ ap (λ o. most o none) (hits_in-close trace.files trace.current path line tidy open_)

    tagged-Follows :
        (o : Option (Text × Text))
        → Follows trace (read_tagged has_root root o trace) (tagged_event o) path line
    unfolding read_tagged
    tagged-Follows none = record {
      tidy = tidy;
      tidy_current = open_;
      open_path = refl;
      hits = sym (
          ap (most (seen trace path line)) (said-silent path line (path_of trace.current))
          ∙ most-none (seen trace path line));
    }
    tagged-Follows (some (tag, value)) = elim (Bool-cases (list_eqb tag (codes "SF"))) [
      | inl file ↦
          let o = relative_to_root has_root root value in
          rw file (record {
            tidy = Tidy-close trace.files trace.current tidy open_;
            tidy_current = TidyCurrent-open_at o;
            open_path = path_of-open_at o;
            hits = closed_hits (open_at o) (current_hits-open_at o path line);
          })
      | inr other ↦
          let (up, at, law) = extend_lem tag value trace.current path line open_ in
          rw other (record {
            tidy = tidy;
            tidy_current = up;
            open_path = at;
            hits =
                ap (most (hits_in (lookup path trace.files) line)) law
                ∙ sym (
                    most_assoc (hits_in (lookup path trace.files) line)
                      (current_hits trace.current path line)
                      (said path line (path_of trace.current) (reports (da_of tag value))));
          })
    ]

    line-Follows :
        (t : Text) → Follows trace (read_line has_root root t trace) (event_of t) path line
    unfolding read_line
    line-Follows t = elim (Bool-cases (list_eqb t (codes "end_of_record"))) [
      | inl end_ ↦ rw end_ (record {
        tidy = Tidy-close trace.files trace.current tidy open_;
        tidy_current = tt;
        open_path = refl;
        hits = closed_hits none refl;
      })
      | inr more ↦ rw more (tagged-Follows (split_at (λ c. nat_eqb c b':') t))
    ]

  lines_follow :
      (ts : List Text) (trace : Trace) (path : Text) (line : ℕ)
      → Tidy trace.files
      → TidyCurrent trace.current
      → hits_in
          (lookup path (
            close_section
              (read_lines has_root root ts trace).files
              (read_lines has_root root ts trace).current))
          line
        ≡ most (seen trace path line) (reported path line (path_of trace.current) ts)
  unfolding read_lines
  lines_follow [] trace path line tidy open_ =
      hits_in-close trace.files trace.current path line tidy open_
      ∙ sym (most-none (seen trace path line))
  lines_follow (t ∷ ts) trace path line tidy open_ =
      let next = read_line has_root root t trace in
      let step = line-Follows trace path line tidy open_ t in
      let rest = lines_follow ts next path line step.tidy step.tidy_current in
      let says = said path line (path_of trace.current) (event_of t) in
      rest
      ∙ ap (λ o. most (seen next path line) (reported path line o ts)) step.open_path
      ∙ ap (λ o. most o (reported path line (still_open (path_of trace.current) (event_of t)) ts))
          step.hits
      ∙ most_assoc (seen trace path line) says
          (reported path line (still_open (path_of trace.current) (event_of t)) ts)

  -- After the loop a line of a file has the most hits that any report of it names, in whatever
  -- sections of that file, ended or not; and a line without a report has no hits entry.
  pub sections_of-reported :
      (content path : Text) (line : ℕ)
      → hits_in (lookup path (sections_of has_root root content)) line
        ≡ reported path line none (trimmed_lines content)
  unfolding sections_of
  sections_of-reported content path line =
      lines_follow (trimmed_lines content) (record { files = []; current = none }) path line
        (tt, tt) tt
