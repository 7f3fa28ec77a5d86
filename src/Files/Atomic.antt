-- ===== src/Files/Atomic.antt =====
-- `atomic_write` of ar724/db.py, and what the caller sees of it.
use ztrade_ares_7x.Base.{
  Bool-cases, String, ◌≡◌, refl, sym, ◌∙◌, ap, subst, inl, inr, ◌⊎◌, false, Option, none, some,
  str_eq, eq_iff,
}
use ztrade_ares_7x.Base.Result.{Result, os_error, err, ok}
use ztrade_ares_7x.Files.{
  Files, put, move, clean_up, after_replace, Unlinked, removed, missing, kept, after_write,
  atomic_write, Answer, World, replaced, transient, refused,
}
use ztrade_ares_7x.Files.Retry.{settled, ending_of, replace_with_retry_lem}

abbrev pub unless_broken : Option String → Answer → Answer
unless_broken (some part) a = refused
unless_broken none a = a

-- The answer that decides: a write that raises counts as a refusal.
abbrev pub verdict : World → Answer
verdict w = unless_broken w.broken_write (settled w.answers 0 6)

-- The temporary file is gone, or os.unlink has refused to remove it.
abbrev pub Tidy : World → Files → Type 0
Tidy w files = (files w.temporary ≡ none) ⊎ (w.unlinked ≡ kept)

-- What the caller sees: the target has the new contents and no other file has changed, or an OSError
-- and no file but the temporary one has changed.
abbrev pub Stored : World → Files → String → String → Answer → Files × Result (Unit {0}) → Type 0
Stored w files target contents replaced r =
    (r.1 ≡ ok tt) × ((x : String) → r.0 x ≡ put files target (some contents) x)
Stored w files target contents _ r =
    (r.1 ≡ err os_error)
    × ((x : String) → str_eq w.temporary x ≡ false → r.0 x ≡ files x)
    × Tidy w r.0

-- Whatever stood in the temporary file, removing it gives the files from before.
put-put :
    (files : Files) (tmp : String) (contents : Option String) (x : String)
    → files tmp ≡ none
    → put (put files tmp contents) tmp none x ≡ files x
put-put files tmp contents x fresh = elim (Bool-cases (str_eq tmp x)) [
  | inl e ↦ rw e (sym (ap files (sym ((eq_iff tmp x).0 e)) ∙ fresh))
  | inr e ↦ rw e
]

move-put :
    (files : Files) (tmp target contents : String) (x : String)
    → files tmp ≡ none
    → str_eq target tmp ≡ false
    → move (put files tmp (some contents)) tmp target x ≡ put files target (some contents) x
move-put files tmp target contents x fresh apart = elim (Bool-cases (str_eq tmp x)) [
  | inl e ↦
      let beside : str_eq target x ≡ false =
        subst (λ z. str_eq target z ≡ false) ((eq_iff tmp x).0 e) apart in
      rw (e, beside) (sym (ap files (sym ((eq_iff tmp x).0 e)) ∙ fresh))
  | inr e ↦ rw (e, (eq_iff tmp tmp).1 refl)
]

clean_up-Stored :
    (w : World) (files : Files) (target contents part : String)
    → files w.temporary ≡ none
    → Stored w files target contents refused
        (clean_up w.unlinked (put files w.temporary (some part)) w.temporary)
clean_up-Stored w files target contents part fresh = left w.unlinked refl
  where
    gone : put (put files w.temporary (some part)) w.temporary none w.temporary ≡ none
    gone = put-put files w.temporary (some part) w.temporary fresh ∙ fresh

    left :
        (u : Unlinked)
        → w.unlinked ≡ u
        → Stored w files target contents refused
            (clean_up u (put files w.temporary (some part)) w.temporary)
    left removed e = (refl, λ x h. rw h, inl gone)
    left missing e = (refl, λ x h. rw h, inl gone)
    left kept e = (refl, λ x h. rw h, inr e)

replaced-Stored :
    (w : World) (files : Files) (target contents : String) (a : Answer)
    → files w.temporary ≡ none
    → str_eq target w.temporary ≡ false
    → Stored w files target contents a (
        after_replace w.unlinked
          (ending_of a)
          (put files w.temporary (some contents))
          w.temporary
          target)
replaced-Stored w files target contents replaced fresh apart =
    (refl, λ x. move-put files w.temporary target contents x fresh apart)
replaced-Stored w files target contents transient fresh apart =
    clean_up-Stored w files target contents contents fresh
replaced-Stored w files target contents refused fresh apart =
    clean_up-Stored w files target contents contents fresh

-- `atomic_write` is all or nothing: if mkstemp gives a new name that is not the target's, the
-- target has the whole new contents, no other file has changed and `atomic_write` returns, or it
-- raises an OSError and no file but the temporary one has changed, which is gone unless os.unlink
-- refuses to remove it. Which of the two it is depends on the write and on the first answer of
-- os.replace that is not transient.
pub atomic_write-Stored :
    (w : World) (files : Files) (target contents : String)
    → files w.temporary ≡ none
    → str_eq target w.temporary ≡ false
    → Stored w files target contents (verdict w) (atomic_write w files target contents)
unfolding atomic_write
atomic_write-Stored w files target contents fresh apart = written w.broken_write
  where
    written :
        (broken : Option String)
        → Stored w files target contents
            (unless_broken broken (settled w.answers 0 6))
            (after_write broken w files target contents)
    written (some part) = clean_up-Stored w files target contents part fresh
    written none =
        subst
          (λ e.
            Stored w files target contents (settled w.answers 0 6) (
              after_replace w.unlinked e (put files w.temporary (some contents)) w.temporary
                target))
          (sym (replace_with_retry_lem w.answers).0)
          (replaced-Stored w files target contents (settled w.answers 0 6) fresh apart)
