-- ===== src/Library/Argc.antt =====
-- How many words src/reprompi_bench/benchmark_lib/reproMPIbenchmark.c counts in the environment
-- variable.
use reprompi_dev.Prelude.{
  ℕ, ◌+◌, ◌-◌, ◌≤◌, ◌<◌, ◌≡◌, refl, Bool, true, false, Bool-cases, inl, inr, [], ◌∷◌, ◌++◌, length,
  ◌==◌, if◌then◌else◌, arith,
}
use reprompi_dev.Prelude.Text.{Str}
use reprompi_dev.Library.{Scan, scan, scan_all, compute_argc, flush, tokens_from, tokens}

-- 1 if the last character is of a word and does not follow a space; `white` says whether a
-- space stands before the text
abbrev pub end_of_word : Bool → Str → ℕ
end_of_word white [] = 0
end_of_word white (c ∷ []) = if c == b' ' then 0 else if white then 0 else 1
end_of_word white (c ∷ d ∷ str) = end_of_word (c == b' ') (d ∷ str)

-- a word that has begun is one of the tokens
tokens_from_pos : (c : ℕ) (word str : Str) → 0 < length (tokens_from (c ∷ word) str)
unfolding tokens_from
tokens_from_pos c word [] = omega arith
tokens_from_pos c word (d ∷ str) = ground (arith, tokens_from_pos c (word ++ d ∷ []) str)

tokens_from_space :
    (word str : Str) (c : ℕ)
    → (c == b' ') ≡ true
    → tokens_from word (c ∷ str) ≡ flush word ++ tokens_from [] str
unfolding tokens_from
tokens_from_space word str c h = rw h refl

tokens_from_char :
    (word str : Str) (c : ℕ)
    → (c == b' ') ≡ false
    → tokens_from word (c ∷ str) ≡ tokens_from (word ++ c ∷ []) str
unfolding tokens_from
tokens_from_char word str c h = rw h refl

abbrev state : ℕ → Bool → Bool → Scan
state cnt white seen = record { cnt = cnt; white = white; seenword = seen }

end_space :
    (white : Bool) (c : ℕ) (str : Str)
    → (c == b' ') ≡ true
    → end_of_word white (c ∷ str) ≡ end_of_word true str
end_space white c [] h = rw h refl
end_space white c (d ∷ str) h = rw h refl

end_char :
    (white : Bool) (c d : ℕ) (str : Str)
    → (c == b' ') ≡ false
    → end_of_word white (c ∷ d ∷ str) ≡ end_of_word false (d ∷ str)
end_char white c d str h = rw h refl

end_last :
    (white : Bool) (c : ℕ)
    → (c == b' ') ≡ false
    → end_of_word white (c ∷ []) ≡ (if white then 0 else 1)
end_last white c h = rw h refl

-- One turn of the loop, at a space, in a word and behind a space
scan_space :
    (c cnt : ℕ) (white seen : Bool) (str : Str)
    → (c == b' ') ≡ true
    → scan_all (c ∷ str) (state cnt white seen) ≡ scan_all str (state cnt true seen)
unfolding scan_all scan
scan_space c cnt white seen str h = rw h refl

scan_char :
    (c d cnt : ℕ) (seen : Bool) (str : Str)
    → (c == b' ') ≡ false
    → scan_all (c ∷ d ∷ str) (state cnt false seen) ≡ scan_all (d ∷ str) (state cnt false true)
unfolding scan_all scan
scan_char c d cnt seen str h = rw h refl

scan_last :
    (c cnt : ℕ) (seen : Bool)
    → (c == b' ') ≡ false
    → scan_all (c ∷ []) (state cnt false seen) ≡ cnt + 1
unfolding scan_all scan
scan_last c cnt seen h = rw (scan_all, h) refl

scan_first :
    (c cnt : ℕ) (seen : Bool) (str : Str)
    → (c == b' ') ≡ false
    → scan_all (c ∷ str) (state cnt true seen)
      ≡ scan_all str (state (if seen then cnt + 1 else cnt) false true)
unfolding scan_all scan
scan_first c cnt seen [] h = rw (scan_all, h) refl
scan_first c cnt seen (d ∷ str) h = rw h refl

end_first :
    (str : Str) (d : ℕ) → (d == b' ') ≡ false → end_of_word true (d ∷ str) ≡ end_of_word false str
end_first [] d h = end_last true d h
end_first (e ∷ str) d h = end_char true d e str h

-- A character of a word, which is the last one or not
in_word_char :
    (str : Str) (d c : ℕ) (word : Str) (cnt : ℕ)
    → (d == b' ') ≡ false
    → scan_all str (state cnt false true) + 1
      ≡ cnt + length (tokens_from (c ∷ word) str) + end_of_word false str
    → scan_all (d ∷ str) (state cnt false true) + 1
      ≡ cnt + length (tokens_from (c ∷ word) str) + end_of_word false (d ∷ str)
unfolding scan_all tokens_from
in_word_char [] d c word cnt h e = rw (scan_last d cnt true h, end_last false d h) (omega arith)
in_word_char (e ∷ str) d c word cnt h p =
    rw (scan_char d e cnt true str h, end_char false d e str h) p

-- In a word, and behind a space after the first word
mutual
  unfolding scan_all tokens_from

  in_word :
      (str : Str) (c : ℕ) (word : Str) (cnt : ℕ)
      → scan_all str (state cnt false true) + 1
        ≡ cnt + length (tokens_from (c ∷ word) str) + end_of_word false str
  in_word [] c word cnt = omega arith
  in_word (d ∷ str) c word cnt = elim (Bool-cases (d == b' ')) [
    | inl h ↦
        rw
          (
            scan_space d cnt false true str h,
            tokens_from_space (c ∷ word) str d h,
            end_space false d str h,
          )
          (omega (arith, behind_word str cnt))
    | inr h ↦
        rw (tokens_from_char (c ∷ word) str d h)
          (in_word_char str d c (word ++ d ∷ []) cnt h (in_word str c (word ++ d ∷ []) cnt))
  ]

  behind_word :
      (str : Str) (cnt : ℕ)
      → scan_all str (state cnt true true)
        ≡ cnt + length (tokens_from [] str) + end_of_word true str
  behind_word [] cnt = omega arith
  behind_word (d ∷ str) cnt = elim (Bool-cases (d == b' ')) [
    | inl h ↦
        rw (scan_space d cnt true true str h, tokens_from_space [] str d h, end_space true d str h)
          (behind_word str cnt)
    | inr h ↦
        rw (scan_first d cnt true str h, tokens_from_char [] str d h, end_first str d h)
          (omega (arith, in_word str d [] (cnt + 1)))
  ]

-- Behind spaces before the first word
before_words :
    (str : Str)
    → scan_all str (state 0 true false) ≡ (length (tokens_from [] str) - 1) + end_of_word true str
unfolding scan_all tokens_from
before_words [] = refl
before_words (d ∷ str) = elim (Bool-cases (d == b' ')) [
  | inl h ↦
      rw (scan_space d 0 true false str h, tokens_from_space [] str d h, end_space true d str h)
        (before_words str)
  | inr h ↦
      rw (scan_first d 0 false str h, tokens_from_char [] str d h, end_first str d h)
        (omega (arith, in_word str d [] 0, tokens_from_pos d [] str))
]

end_of_word_le_one : (white : Bool) (str : Str) → end_of_word white str ≤ 1
end_of_word_le_one white [] = omega arith
end_of_word_le_one white (c ∷ []) = ground arith
end_of_word_le_one white (c ∷ d ∷ str) = end_of_word_le_one (c == b' ') (d ∷ str)

end_of_word_le : (white : Bool) (str : Str) → end_of_word white str ≤ length (tokens_from [] str)
end_of_word_le white [] = omega arith
end_of_word_le white (c ∷ str) = elim (Bool-cases (c == b' ')) [
  | inl h ↦ rw (end_space white c str h, tokens_from_space [] str c h) (end_of_word_le true str)
  | inr h ↦
      rw (tokens_from_char [] str c h)
        (omega (arith, end_of_word_le_one white (c ∷ str), tokens_from_pos c [] str))
]

-- How many words the program is given
abbrev pub words_given : Str → ℕ
words_given env = (length (tokens env) - 1) + end_of_word false env

pub words_given_le : (env : Str) → words_given env ≤ length (tokens env)
words_given_le env = omega (arith, end_of_word_le_one false env, end_of_word_le false env)

-- `compute_argc` counts the words but one, and the last one again if it ends the variable with
-- a character that does not follow a space.
pub compute_argc-tokens : (str : Str) → compute_argc str ≡ words_given str
unfolding compute_argc scan_all tokens_from
compute_argc-tokens [] = refl
compute_argc-tokens (d ∷ str) = elim (Bool-cases (d == b' ')) [
  | inl h ↦
      rw (scan_space d 0 false false str h, tokens_from_space [] str d h, end_space false d str h)
        (before_words str)
  | inr h ↦ rw (tokens_from_char [] str d h) (first_char str d h)
]
  where
    first_char :
        (str : Str) (d : ℕ)
        → (d == b' ') ≡ false
        → scan_all (d ∷ str) (state 0 false false)
          ≡ (length (tokens_from (d ∷ []) str) - 1) + end_of_word false (d ∷ str)
    first_char [] d h = rw (scan_last d 0 false h, end_last false d h) (omega arith)
    first_char (e ∷ str) d h =
        rw (scan_char d e 0 false str h, end_char false d e str h)
          (omega (arith, in_word (e ∷ str) d [] 0, tokens_from_pos d [] (e ∷ str)))
