-- ===== src/Client/Keys/Pressed.antt =====
-- connect.rs: a printable key that arrives as an escape sequence comes out as the key.
use mjolnir.Base.{ℕ, ◌+◌, ◌/◌, ◌%◌, List, [], ◌∷◌, ◌++◌, if◌then◌else◌, ltb}
use mjolnir.Client.Keys.{KeyNormalizer}

-- A number of up to three digits, as a terminal writes it.
abbrev pub three_digits : ℕ → List ℕ
three_digits n =
    if ltb n 100
    then (n / 10 % 10 + 48) ∷ (n % 10 + 48) ∷ []
    else (n / 100 % 10 + 48) ∷ (n / 10 % 10 + 48) ∷ (n % 10 + 48) ∷ []

-- What a terminal sends for a key: kitty's form, and that of modifyOtherKeys with Shift.
abbrev pub kitty_sequence : ℕ → List ℕ
kitty_sequence n = 27 ∷ b'[' ∷ (three_digits n ++ b'u' ∷ [])

abbrev pub other_sequence : ℕ → List ℕ
other_sequence n = 27 ∷ b'[' ∷ b'2' ∷ b'7' ∷ b';' ∷ b'2' ∷ b';' ∷ (three_digits n ++ b'~' ∷ [])

abbrev pub nothing_held : KeyNormalizer
nothing_held = record { pending = [] }
