-- ===== src/Store/Clock.antt =====
-- Times as the statements compare them: helpers.go writes a time as RFC3339Nano text, and the
-- tables compare that text byte by byte.
pub mod Windows
use phlox_gw.Common.{
  ℕ, zero, suc, ◌+◌, ◌/◌, ◌%◌, ◌^◌, Bool, true, false, not, ◌&&◌, ◌||◌, [], ◌∷◌, ◌++◌, ltb, ◌==◌,
  if◌then◌else◌,
}
use phlox_gw.Common.Text.{Text}
use phlox_gw.Store.Types.{Time}

-- t.After(u)
unfoldable pub after : Time → Time → Bool
after t u = ltb u.sec t.sec || u.sec == t.sec && ltb u.nano t.nano

-- The text of a time. The characters up to the seconds have a fixed width, and are ordered as the
-- seconds are; `tail` is what follows them.
pub record TimeText : Type 0 where
  pub sec : ℕ
  pub tail : Text

-- The digits of a fraction `v` of `k` digits, without the zeros at its end.
unfoldable pub fraction_digits : ℕ → ℕ → Text
fraction_digits zero v = []
fraction_digits (suc k) v =
    let rest = fraction_digits k (v % 10 ^ k) in if v == 0 then [] else (b'0' + v / 10 ^ k) ∷ rest

unfoldable pub format_time : Time → TimeText
unfolding fraction_digits
format_time t = record {
  sec = t.sec;
  tail = if t.nano == 0 then b'Z' ∷ [] else b'.' ∷ (fraction_digits 9 t.nano ++ b'Z' ∷ []);
}

-- s < t, byte by byte
unfoldable pub text_ltb : Text → Text → Bool
text_ltb [] [] = false
text_ltb [] (_ ∷ _) = true
text_ltb (_ ∷ _) [] = false
text_ltb (a ∷ s) (b ∷ t) = ltb a b || a == b && text_ltb s t

unfoldable pub time_text_ltb : TimeText → TimeText → Bool
unfolding text_ltb
time_text_ltb a b = ltb a.sec b.sec || a.sec == b.sec && text_ltb a.tail b.tail

-- created_at >= since
unfoldable pub recorded_since : Time → Time → Bool
unfolding format_time time_text_ltb
recorded_since since created = not (time_text_ltb (format_time created) (format_time since))

-- created_at >= start AND created_at < end
unfoldable pub recorded_in : Time → Time → Time → Bool
unfolding recorded_since format_time time_text_ltb
recorded_in start end created =
    recorded_since start created && time_text_ltb (format_time created) (format_time end)
