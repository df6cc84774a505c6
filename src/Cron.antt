-- ===== src/Cron.antt =====
-- lib/services/cronPhrase.ts: the schedule that a user picks, as a cron expression, and back. What
-- `Number` reads of a text that is not all digits is an argument.
pub mod Text
pub mod Parts
pub mod Picker
use Prim.Native.String
use pagespeed_auditor.Prelude.{
  ℕ, String, Bool, true, false, ◌&&◌, Option, none, some, List, [], ◌∷◌, leb, if◌then◌else◌, same,
}
use pagespeed_auditor.Cron.Text.{spell, is_digits, decimal, is_weekday, is_monthday, parts}

pub data Frequency : Type 0 where
  daily weekdays weekly monthly : Frequency

pub record ScheduleChoice : Type 0 where
  pub frequency : Frequency
  pub hour : ℕ
  pub minute : ℕ
  pub weekday : ℕ
  pub monthday : ℕ

abbrev pub default_choice : ScheduleChoice
default_choice = record { frequency = daily; hour = 3; minute = 0; weekday = 1; monthday = 1 }

-- `${m} ${h} ${dom} * ${dow}`
abbrev pub cron_text : (m h dom dow : String) → String
cron_text m h dom dow = String.◌++◌ m (
    String.◌++◌ " " (
      String.◌++◌ h (
        String.◌++◌ " "
          (String.◌++◌ dom (String.◌++◌ " " (String.◌++◌ "*" (String.◌++◌ " " dow)))))))

unfoldable pub choice_to_cron : ScheduleChoice → String
unfolding spell
choice_to_cron c = elim c.frequency [
  | daily ↦ cron_text (spell c.minute) (spell c.hour) "*" "*"
  | weekdays ↦ cron_text (spell c.minute) (spell c.hour) "*" "1-5"
  | weekly ↦ cron_text (spell c.minute) (spell c.hour) "*" (spell c.weekday)
  | monthly ↦ cron_text (spell c.minute) (spell c.hour) (spell c.monthday) "*"
]

-- `Number(text)`, where it is a whole number that is not below zero.
abbrev pub number_of : (other : String → Option ℕ) → String → Option ℕ
number_of other s = if is_digits s then some (decimal 0 s) else other s

-- The checks on the day of the month and of the week.
abbrev pub day_choice : (base : ScheduleChoice) → (dom dow : String) → Option ScheduleChoice
day_choice base dom dow =
    if same dom "*" && same dow "*"
    then some (record base { frequency = daily })
    else if same dom "*" && same dow "1-5"
    then some (record base { frequency = weekdays })
    else if same dom "*" && is_weekday dow
    then some (record base { frequency = weekly; weekday = decimal 0 dow })
    else if same dow "*" && is_monthday dom
    then some (record base { frequency = monthly; monthday = decimal 0 dom })
    else none

abbrev pub time_choice : (hour minute : Option ℕ) → (dom dow : String) → Option ScheduleChoice
time_choice none minute dom dow = none
time_choice (some h) none dom dow = none
time_choice (some h) (some m) dom dow =
    if leb h 23 && leb m 59
    then day_choice (record default_choice { hour = h; minute = m }) dom dow
    else none

abbrev pub choice_of_parts : (other : String → Option ℕ) → List String → Option ScheduleChoice
choice_of_parts other (m ∷ h ∷ dom ∷ month ∷ dow ∷ []) =
    if same month "*" then time_choice (number_of other h) (number_of other m) dom dow else none
choice_of_parts other _ = none

unfoldable pub cron_to_choice : (other : String → Option ℕ) → Option String → Option ScheduleChoice
unfolding is_digits decimal is_monthday parts
cron_to_choice other none = none
cron_to_choice other (some expr) = if same expr "" then none else choice_of_parts other (parts expr)
