-- ===== src/Cron/Picker.antt =====
-- The round trip of a picked schedule through its cron expression.
use Prim.Native.String
use Prim.Native.String.append
use pagespeed_auditor.Prelude.{
  ℕ, ◌≤◌, ◌<◌, String, ◌≡◌, refl, ap, ◌∙◌, true, false, Option, some, arith, leb, same, same-false,
}
use pagespeed_auditor.Cron.Text.{spell, is_digits, decimal, is_monthday}
use pagespeed_auditor.Cron.Parts.{is_word, parts-cron_text, spelled, weekday_spelled}
use pagespeed_auditor.Cron.{
  Frequency, daily, weekdays, weekly, monthly, ScheduleChoice, default_choice, cron_text,
  choice_to_cron, number_of, day_choice, cron_to_choice,
}

-- The choice as the picker reopens it: a day that its frequency does not use is the default one.
abbrev pub reopened : ScheduleChoice → ScheduleChoice
reopened c = elim c.frequency [
  | daily ↦ record default_choice { frequency = daily; hour = c.hour; minute = c.minute }
  | weekdays ↦ record default_choice { frequency = weekdays; hour = c.hour; minute = c.minute }
  | weekly ↦ record default_choice {
    frequency = weekly;
    hour = c.hour;
    minute = c.minute;
    weekday = c.weekday;
  }
  | monthly ↦ record default_choice {
    frequency = monthly;
    hour = c.hour;
    minute = c.minute;
    monthday = c.monthday;
  }
]

number_of-spell : (other : String → Option ℕ) (n : ℕ) → n < 100 → number_of other (spell n) ≡ some n
number_of-spell other n h =
    let ds : is_digits (spell n) ≡ true = ground (arith, spelled n h) in
    let v : decimal 0 (spell n) ≡ n = ground (arith, spelled n h) in rw (ds, v) refl

word_text_filled : (m t : String) → is_word m ≡ true → same (String.◌++◌ m t) "" ≡ false
word_text_filled String.[] t w = cc
word_text_filled (String.◌∷◌ c m) t w =
    ap (λ (s : String). same s "") (append.cons c m t)
    ∙ same-false (String.◌∷◌ c (String.◌++◌ m t)) "" (λ e. cc)

-- An expression of an hour and a minute is read as far as its days.
timed :
    (other : String → Option ℕ) (m h : ℕ) (dom dow : String)
    → m ≤ 59
    → h ≤ 23
    → is_word dom ≡ true
    → is_word dow ≡ true
    → cron_to_choice other (some (cron_text (spell m) (spell h) dom dow))
      ≡ day_choice (record default_choice { hour = h; minute = m }) dom dow
unfolding cron_to_choice
timed other m h dom dow i j k l =
    let wm : is_word (spell m) ≡ true = ground (arith, spelled m (omega arith)) in
    let wh : is_word (spell h) ≡ true = ground (arith, spelled h (omega arith)) in
    let a : leb h 23 ≡ true = ground arith in
    let b : leb m 59 ≡ true = ground arith in
    rw
      (
        word_text_filled (spell m)
            (String.◌++◌ " " (
              String.◌++◌ (spell h) (
                String.◌++◌ " "
                  (String.◌++◌ dom (String.◌++◌ " " (String.◌++◌ "*" (String.◌++◌ " " dow)))))))
            wm,
        parts-cron_text (spell m) (spell h) dom dow wm wh k l,
        number_of-spell other h (omega arith),
        number_of-spell other m (omega arith),
        a,
        b,
      )
      refl

-- A schedule that a user picks reopens in the picker as it was picked: with an hour of 0 to 23, a
-- minute of 0 to 59, a weekday of 0 to 6 and a day of the month below 100, reading the expression
-- that the choice is stored as gives the choice, with the default in the days that its frequency
-- does not use, whatever `Number` does with other texts.
pub cron_to_choice-choice_to_cron :
    (other : String → Option ℕ) (c : ScheduleChoice)
    → c.hour ≤ 23
    → c.minute ≤ 59
    → c.weekday ≤ 6
    → c.monthday < 100
    → cron_to_choice other (some (choice_to_cron c)) ≡ some (reopened c)
unfolding choice_to_cron
cron_to_choice-choice_to_cron other c i j k l = by_frequency c.frequency refl
  where
    by_frequency :
        (f : Frequency)
        → c.frequency ≡ f
        → cron_to_choice other (some (choice_to_cron c)) ≡ some (reopened c)
    by_frequency daily e = rw e (timed other c.minute c.hour "*" "*" j i refl refl)
    by_frequency weekdays e = rw e (timed other c.minute c.hour "*" "1-5" j i refl refl)
    by_frequency weekly e =
        let word : is_word (spell c.weekday) ≡ true =
          ground (arith, spelled c.weekday (omega arith)) in
        let other_day : same (spell c.weekday) "*" ≡ false =
          ground (arith, spelled c.weekday (omega arith)) in
        let no_range : same (spell c.weekday) "1-5" ≡ false =
          ground (arith, spelled c.weekday (omega arith)) in
        let value : decimal 0 (spell c.weekday) ≡ c.weekday =
          ground (arith, spelled c.weekday (omega arith)) in
        rw e (
          timed other c.minute c.hour "*" (spell c.weekday) j i refl word
          ∙ rw (other_day, no_range, weekday_spelled c.weekday (omega arith), value) refl)
    by_frequency monthly e =
        let word : is_word (spell c.monthday) ≡ true = ground (arith, spelled c.monthday l) in
        let other_day : same (spell c.monthday) "*" ≡ false =
          ground (arith, spelled c.monthday l) in
        let shape : is_monthday (spell c.monthday) ≡ true = ground (arith, spelled c.monthday l) in
        let value : decimal 0 (spell c.monthday) ≡ c.monthday =
          ground (arith, spelled c.monthday l) in
        rw e (
          timed other c.minute c.hour (spell c.monthday) "*" j i word refl
          ∙ rw (other_day, shape, value) refl)
