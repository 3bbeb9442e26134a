-- ===== src/Audit/Render.antt =====
-- The text of an f-string: its literal parts, and the decimal digits of its numbers.
use Prim.Native.Char.{Char}
use nurix_takehome.Common.{
  ℕ, zero, suc, ◌-◌, ◌*◌, ◌/◌, ◌<◌, String, ◌≡◌, refl, [], ◌∷◌, arith, ltb, if◌then◌else◌,
  Bool-cases, inl, inr,
}
use nurix_takehome.Model.Json.{Text, txt, int}
use nurix_takehome.Audit.Like.{append}

digit : ℕ → Char
digit zero = "0"
digit (suc zero) = "1"
digit (suc (suc zero)) = "2"
digit (suc (suc (suc zero))) = "3"
digit (suc (suc (suc (suc zero)))) = "4"
digit (suc (suc (suc (suc (suc zero))))) = "5"
digit (suc (suc (suc (suc (suc (suc zero)))))) = "6"
digit (suc (suc (suc (suc (suc (suc (suc zero))))))) = "7"
digit (suc (suc (suc (suc (suc (suc (suc (suc zero)))))))) = "8"
digit (suc (suc (suc (suc (suc (suc (suc (suc (suc _))))))))) = "9"

-- The digits of a number, before a text. The fuel is one more than the number.
digits : ℕ → ℕ → String → String
digits zero n rest = rest
digits (suc fuel) n rest =
    let more = digits fuel (n / 10) (String.◌∷◌ (digit (n - n / 10 * 10)) rest) in
    if ltb n 10 then String.◌∷◌ (digit n) rest else more

unfoldable pub decimal : ℕ → String
unfolding digits digit
decimal n = digits (suc n) n ""

-- More fuel than that changes nothing.
digits_enough : (f g n : ℕ) (rest : String) → n < f → n < g → digits f n rest ≡ digits g n rest
unfolding digits
digits_enough zero g n rest h k = absurd (omega arith)
digits_enough (suc f) zero n rest h k = absurd (omega arith)
digits_enough (suc f) (suc g) n rest h k = elim (Bool-cases (ltb n 10)) [
  | inl e ↦ rw e refl
  | inr e ↦ rw e (digits_enough f g (n / 10) _ (ground arith) (ground arith))
]

unfoldable pub render : Text → String
unfolding decimal
render [] = ""
render (txt s ∷ ps) = append s (render ps)
render (int n ∷ ps) = append (decimal n) (render ps)

d120 : render (txt "in-flight " ∷ int 1205 ∷ txt "." ∷ []) ≡ "in-flight 1205."
unfolding render
d120 = refl
