-- ===== src/Wire/Stream.antt =====
-- What a TCP connection still delivers, and the two ways in which octopus reads it. The package net
-- is outside the repository: how much a call of `Read` gives is a parameter.
use erina.Base.{ℕ, ◌<◌, ◌≤◌, ◌≡◌, leb, ltb, if◌then◌else◌, min, length, take, drop}
use erina.Words.{Bytes, fit}

-- `Read` of at most `want` bytes, where `rest` is still to come, gives no more than is asked for or
-- is there, and something if there is something.
pub record Net : Type 0 where
  pub got : ℕ → Bytes → ℕ
  pub got_le : (want : ℕ) (rest : Bytes) → got want rest ≤ min want (length rest)
  pub got_pos : (want : ℕ) (rest : Bytes) → 0 < min want (length rest) → 0 < got want rest

-- A connection on which each call gives all that is asked for, as far as it is there.
abbrev pub Prompt : Net → Type 0
Prompt n = (want : ℕ) (rest : Bytes) → n.got want rest ≡ min want (length rest)

-- How a read ends: with a value and what is left on the connection, with an error, or with the fuel
-- spent.
pub data Read {ℓ} (A : Type ℓ) : Type ℓ where
  read : A → Bytes → Read A
  failed : Read A
  unfinished : Read A

abbrev pub Reads {ℓ} : Type ℓ → Type ℓ
Reads A = Bytes → Read A

abbrev pub then_read {ℓ κ} : {A : Type ℓ} {B : Type κ} → Read A → (A → Reads B) → Read B
then_read (read a rest) f = f a rest
then_read failed f = failed
then_read unfinished f = unfinished

infixl 5 ◌>>=◌
abbrev pub ◌>>=◌ {ℓ κ} : {A : Type ℓ} {B : Type κ} → Reads A → (A → Reads B) → Reads B
m >>= f = λ rest. then_read (m rest) f

-- `io.ReadFull` of a buffer of `n` bytes.
abbrev pub read_full : ℕ → Reads Bytes
read_full n rest = if leb n (length rest) then read (take n rest) (drop n rest) else failed

-- `c.Read` of a fresh buffer of `n` bytes, `n` not zero: what is not filled stays zero. At the end
-- of the stream it is an error.
abbrev pub read_some : Net → ℕ → Reads Bytes
read_some net n rest =
    if ltb 0 (length rest)
    then read (fit n (take (net.got n rest) rest)) (drop (net.got n rest) rest)
    else failed
