-- ===== src/Cron/Parts.antt =====
-- The parts of an expression that was put together of words, and the numbers in it.
use Prim.Native.Char.{Char}
use Prim.Native.String
use Prim.Native.String.append
use pagespeed_auditor.Prelude.{
  ℕ, ◌<◌, String, ◌≡◌, refl, ap, ◌∙◌, Bool, true, false, not, ◌&&◌, List, [], ◌∷◌, arith, ◌==◌,
  same, all_below, all_below_sound,
}
use pagespeed_auditor.Cron.Text.{
  spell, is_digits, decimal, is_weekday, is_monthday, is_white, word_first, split_words, parts,
}
use pagespeed_auditor.Cron.{cron_text}

-- A text without spaces.
abbrev pub is_solid : String → Bool
is_solid String.[] = true
is_solid (String.◌∷◌ c s) = not (is_white c) && is_solid s

-- A text without spaces that is not empty.
abbrev pub is_word : String → Bool
is_word String.[] = false
is_word (String.◌∷◌ c s) = not (is_white c) && is_solid s

split_words-solid : (w : String) → is_solid w ≡ true → split_words w ≡ (w, [])
unfolding split_words
split_words-solid String.[] h = refl
split_words-solid (String.◌∷◌ c s) h =
    let plain : is_white c ≡ false = ground arith in
    rw (split_words-solid s (ground arith), plain) refl

space : Char
space = " "

spaced : (t : String) → String.◌++◌ " " t ≡ String.◌∷◌ space t
unfolding space
spaced t = append.cons " " String.[] t ∙ ap (String.◌∷◌ " ") (append.nil t)

split_words-append :
    (w t : String)
    → is_solid w ≡ true
    → split_words (String.◌++◌ w (String.◌++◌ " " t))
      ≡ (w, word_first (split_words t).0 (split_words t).1)
unfolding split_words space
split_words-append String.[] t h = ap split_words (append.nil (String.◌++◌ " " t) ∙ spaced t)
split_words-append (String.◌∷◌ c s) t h =
    let plain : is_white c ≡ false = ground arith in
    ap split_words (append.cons c s (String.◌++◌ " " t))
    ∙ rw (split_words-append s t (ground arith), plain) refl

word_first-word : (w : String) (ws : List String) → is_word w ≡ true → word_first w ws ≡ w ∷ ws
word_first-word String.[] ws h = cc
word_first-word (String.◌∷◌ c w) ws h = refl

solid_of_word : (w : String) → is_word w ≡ true → is_solid w ≡ true
solid_of_word String.[] h = refl
solid_of_word (String.◌∷◌ c w) h = h

-- The parts of an expression are the texts that it was put together of.
pub parts-cron_text :
    (m h dom dow : String)
    → is_word m ≡ true
    → is_word h ≡ true
    → is_word dom ≡ true
    → is_word dow ≡ true
    → parts (cron_text m h dom dow) ≡ m ∷ h ∷ dom ∷ "*" ∷ dow ∷ []
unfolding parts
parts-cron_text m h dom dow i j k l =
    rw
      (
        split_words-append m
            (String.◌++◌ h (
              String.◌++◌ " "
                (String.◌++◌ dom (String.◌++◌ " " (String.◌++◌ "*" (String.◌++◌ " " dow))))))
            (solid_of_word m i),
        split_words-append h
            (String.◌++◌ dom (String.◌++◌ " " (String.◌++◌ "*" (String.◌++◌ " " dow))))
            (solid_of_word h j),
        split_words-append dom (String.◌++◌ "*" (String.◌++◌ " " dow)) (solid_of_word dom k),
        split_words-append "*" dow refl,
        split_words-solid dow (solid_of_word dow l),
        word_first-word dow [] l,
        word_first-word dom ("*" ∷ dow ∷ []) k,
        word_first-word h (dom ∷ "*" ∷ dow ∷ []) j,
        word_first-word m (h ∷ dom ∷ "*" ∷ dow ∷ []) i,
      )
      refl

-- What holds of the text of a number below a hundred.
abbrev pub is_spelled : ℕ → Bool
is_spelled n =
    is_word (spell n)
    && (is_digits (spell n)
        && ((decimal 0 (spell n) == n)
            && (is_monthday (spell n) && (not (same (spell n) "*") && not (same (spell n) "1-5")))))

spelled_below : all_below 100 is_spelled ≡ true
unfolding all_below spell is_digits decimal is_monthday
spelled_below = refl

pub spelled : (n : ℕ) → n < 100 → is_spelled n ≡ true
spelled n h = all_below_sound 100 is_spelled n spelled_below h

weekdays_below : all_below 7 (λ (k : ℕ). is_weekday (spell k)) ≡ true
unfolding all_below spell
weekdays_below = refl

pub weekday_spelled : (n : ℕ) → n < 7 → is_weekday (spell n) ≡ true
weekday_spelled n h = all_below_sound 7 (λ (k : ℕ). is_weekday (spell k)) n weekdays_below h
