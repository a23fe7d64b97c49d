-- ===== src/Cron/Rounds.antt =====
-- The rounds of the two loops, by what each value is.
use task_scheduler.Prelude.{ℕ, ◌≡◌, refl, true, false, List, [], ◌∷◌, ◌++◌, ◌==◌, length}
use task_scheduler.Cron.{Wall, is_new, append_loop, append_ambiguous_after, scan}

module _ (after count : ℕ) where
  -- The rounds of the loop over the drained values.
  module _ (x : ℕ) (xs occurrences : List ℕ) where
    pub loop_old :
        is_new after x occurrences ≡ false
        → append_loop after count (x ∷ xs) occurrences ≡ append_loop after count xs occurrences
    unfolding append_loop
    loop_old e = rw (append_loop, e) refl

    module _ (e : is_new after x occurrences ≡ true) where
      pub loop_full :
          (length (occurrences ++ x ∷ []) == count) ≡ true
          → append_loop after count (x ∷ xs) occurrences ≡ occurrences ++ x ∷ []
      unfolding append_loop
      loop_full f = rw (append_loop, e, f) refl

      pub loop_partial :
          (length (occurrences ++ x ∷ []) == count) ≡ false
          → append_loop after count (x ∷ xs) occurrences
            ≡ append_loop after count xs (occurrences ++ x ∷ [])
      unfolding append_loop
      loop_partial f = rw (append_loop, e, f) refl

  -- The rounds of the loop over the iterator.
  module _ (v : Wall) (vs : List Wall) (occurrences ambiguous : List ℕ) where
    abbrev pub flushed : List ℕ
    flushed = append_ambiguous_after after count occurrences ambiguous

    pub scan_ambiguous :
        v.ambiguous ≡ true
        → scan after count (v ∷ vs) occurrences ambiguous
          ≡ scan after count vs occurrences (ambiguous ++ v.utc ∷ [])
    unfolding scan
    scan_ambiguous e = rw (scan, e) refl

    module _ (e : v.ambiguous ≡ false) where
      pub scan_full :
          (length flushed == count) ≡ true
          → scan after count (v ∷ vs) occurrences ambiguous ≡ (flushed, [])
      unfolding scan
      scan_full f = rw (scan, e, f) refl

      module _ (f : (length flushed == count) ≡ false) where
        pub scan_old :
            is_new after v.utc flushed ≡ false
            → scan after count (v ∷ vs) occurrences ambiguous ≡ scan after count vs flushed []
        unfolding scan
        scan_old g = rw (scan, e, f, g) refl

        module _ (g : is_new after v.utc flushed ≡ true) where
          pub scan_last :
              (length (flushed ++ v.utc ∷ []) == count) ≡ true
              → scan after count (v ∷ vs) occurrences ambiguous ≡ (flushed ++ v.utc ∷ [], [])
          unfolding scan
          scan_last h = rw (scan, e, f, g, h) refl

          pub scan_on :
              (length (flushed ++ v.utc ∷ []) == count) ≡ false
              → scan after count (v ∷ vs) occurrences ambiguous
                ≡ scan after count vs (flushed ++ v.utc ∷ []) []
          unfolding scan
          scan_on h = rw (scan, e, f, g, h) refl
