-- ===== src/Spawner/Words.antt =====
-- The words of the commands on a line, as a POSIX shell takes them, as far as the texts need it that
-- ar724/spawner.py and ar724/adapters put together with `shlex.quote`.
use ztrade_ares_7x.Base.{
  ◌==◌, if◌then◌else◌, Bool-cases, all, ℕ, ◌≡◌, ◌∙◌, ap, inl, inr, Bool, true, false, ◌||◌, Option,
  none, some, List, [], ◌∷◌, ◌++◌, append_assoc, arith,
}
use ztrade_ares_7x.Base.Texts.{Text, codes}
use ztrade_ares_7x.Spawner.{is_plain, requote, quote}
use ztrade_ares_7x.Spawner.Shell.{
  keep, move, mode_after, apply_move, Mode, Move, bare, single, stop, take,
}
use ztrade_ares_7x.Spawner.Quoting.{quote-back, and_true}

abbrev pub is_stop : ℕ → Bool
is_stop c = (c == 32) || (c == 10)

-- A blank ends a word as the end of the line does; what ends it is not taken.
abbrev word_move : Mode → ℕ → Move
word_move bare c = if c == 32 then stop else move bare c
word_move mode c = move mode c

abbrev apply_word : Move → ℕ → Text → Option (Text × Text) → Option (Text × Text)
apply_word stop c cs later = some ([], c ∷ cs)
apply_word m c cs later = apply_move m c cs later

abbrev pub word : Mode → Text → Option (Text × Text)
word mode [] = none
word mode (c ∷ cs) = apply_word (word_move mode c) c cs (word (mode_after (word_move mode c)) cs)

-- The next word, which is there only if the text does not begin with what ends one.
abbrev pub first_word : Text → Option (Text × Text)
first_word [] = none
first_word (c ∷ cs) = if is_stop c then none else word bare (c ∷ cs)

-- `Words end text argv rest`: the text begins with these words, a blank between each two of them;
-- behind the last are `end` and `rest`.
pub data Words (end_text : Text) : Text → List Text → Text → Type 0 where
  last :
      {rest : Text} (text value : Text)
      → first_word text ≡ some (value, end_text ++ rest)
      → Words end_text text (value ∷ []) rest
  next :
      {rest : Text} {argv : List Text} (text value behind : Text)
      → first_word text ≡ some (value, 32 ∷ behind)
      → Words end_text behind argv rest
      → Words end_text text (value ∷ argv) rest

-- `Chain text commands rest`: a line of commands, each but the first run if the one before it
-- succeeds; `rest` is behind the line.
pub data Chain : Text → List (List Text) → Text → Type 0 where
  only :
      {text rest : Text} {argv : List Text}
      → Words (10 ∷ []) text argv rest
      → Chain text (argv ∷ []) rest
  also :
      {text rest : Text} {argv : List Text} {commands : List (List Text)} (behind : Text)
      → Words (codes " && ") text argv behind
      → Chain behind commands rest
      → Chain text (argv ∷ commands) rest

word-move :
    (mode : Mode) (c : ℕ) (cs : Text) (m : Move)
    → word_move mode c ≡ m
    → word mode (c ∷ cs) ≡ apply_word m c cs (word (mode_after m) cs)
word-move mode c cs m e = ap (λ n. apply_word n c cs (word (mode_after n) cs)) e

word-single_keep :
    (c : ℕ) (cs : Text) → (c == 39) ≡ false → word single (c ∷ cs) ≡ keep c (word single cs)
word-single_keep c cs e = word-move single c cs (take single) (rw e)

word-requote :
    (value tail : Text)
    → word bare tail ≡ some ([], tail)
    → word single (requote value ++ 39 ∷ tail) ≡ some (value, tail)
word-requote [] tail h = h
word-requote (c ∷ cs) tail h = elim (Bool-cases (c == 39)) [
  | inl e ↦
      rw e (quote-back c cs tail (word single (requote cs ++ 39 ∷ tail)) e (word-requote cs tail h))
  | inr e ↦
      rw e (word-single_keep c (requote cs ++ 39 ∷ tail) e ∙ ap (keep c) (word-requote cs tail h))
]

plain-word_move : (c : ℕ) → is_plain c ≡ true → word_move bare c ≡ take bare
plain-word_move c h = ground arith

word-plain :
    (value tail : Text)
    → all is_plain value ≡ true
    → word bare tail ≡ some ([], tail)
    → word bare (value ++ tail) ≡ some (value, tail)
word-plain [] tail p h = h
word-plain (c ∷ cs) tail p h =
    let first : is_plain c ≡ true = (and_true (is_plain c) (all is_plain cs) p).0 in
    let others : all is_plain cs ≡ true = (and_true (is_plain c) (all is_plain cs) p).1 in
    word-move bare c (cs ++ tail) (take bare) (plain-word_move c first)
    ∙ ap (keep c) (word-plain cs tail others h)

plain-starts : (c : ℕ) → is_plain c ≡ true → is_stop c ≡ false
plain-starts c h = ground arith

first_word-plain :
    (c : ℕ) (cs tail : Text)
    → all is_plain (c ∷ cs) ≡ true
    → word bare tail ≡ some ([], tail)
    → first_word ((c ∷ cs) ++ tail) ≡ some (c ∷ cs, tail)
first_word-plain c cs tail p h =
    let first : is_plain c ≡ true = (and_true (is_plain c) (all is_plain cs) p).0 in
    rw (plain-starts c first) (word-plain (c ∷ cs) tail p h)

-- `shlex.quote`, before what ends a word
pub first_word-quote :
    (value tail : Text)
    → word bare tail ≡ some ([], tail)
    → first_word (quote value ++ tail) ≡ some (value, tail)
first_word-quote [] tail h = h
first_word-quote (c ∷ cs) tail h = elim (Bool-cases (all is_plain (c ∷ cs))) [
  | inl e ↦ rw e (first_word-plain c cs tail e h)
  | inr e ↦
      let split = append_assoc (requote (c ∷ cs)) (39 ∷ []) tail in
      let quoted : quote (c ∷ cs) ≡ 39 ∷ (requote (c ∷ cs) ++ 39 ∷ []) = rw e in
      ap (λ t. first_word (t ++ tail)) quoted
      ∙ ap (word single) split
      ∙ word-requote (c ∷ cs) tail h
]
