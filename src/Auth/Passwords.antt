-- ===== src/Auth/Passwords.antt =====
-- Changing the password: which user it concerns, and what it does to the sessions.
use system_dashnote.Prelude.{◌≡◌, some, List, [], ◌∷◌, arith, All}
use system_dashnote.Prelude.Text.{Text}
use system_dashnote.Prelude.Exec.{ok}
use system_dashnote.Database.{one_or_none}
use system_dashnote.Auth.Platform.{Platform}

pub one_or_none-All {κ} :
    {Row : Type 0} (P : Row → Type κ) (xs : List Row) {x : Row}
    → All P xs
    → one_or_none xs ≡ ok (some x)
    → (y : Row) × P y × (y ≡ x)
one_or_none-All P [] h e = absurd (cc)
one_or_none-All P (x ∷ []) h e = (x, h.0, ground arith)
one_or_none-All P (x ∷ y ∷ xs) h e = absurd (cc)
