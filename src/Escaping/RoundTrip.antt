-- ===== src/Escaping/RoundTrip.antt =====
-- The core reads back what the host escaped.
use ipdbg.Prelude.{
  ℕ, ◌*◌, ◌≤◌, ◌≡◌, refl, ap, false, List, [], ◌∷◌, ◌++◌, arith, length, length-append,
  append_assoc, sym,
}
use mathlib.Core.List.{map}
use ipdbg.Escaping.{
  reset_symbol, is_special, escape, escape_all, Mode, normal, escaping, Symbol, byte, reset,
  receive_byte, decode,
}

decode-escape :
    (b : ℕ) (rest : List ℕ) → decode normal (escape b ++ rest) ≡ byte b ∷ decode normal rest
unfolding escape decode receive_byte
decode-escape b rest = ground arith

-- What the host escapes is handed on by the core's escaping entity byte by byte, and the bytes
-- behind it are decoded as if nothing came before.
pub decode-escape_all :
    (bytes rest : List ℕ)
    → decode normal (escape_all bytes ++ rest) ≡ map byte bytes ++ decode normal rest
unfolding escape_all
decode-escape_all [] rest = refl
decode-escape_all (b ∷ bytes) rest =
    rw (append_assoc (escape b) (escape_all bytes) rest, decode-escape)
      (ap (λ l. byte b ∷ l) (decode-escape_all bytes rest))

-- A byte that is not special is not escaped.
pub decode-plain :
    (b : ℕ) (rest : List ℕ)
    → is_special b ≡ false
    → decode normal (b ∷ rest) ≡ byte b ∷ decode normal rest
unfolding decode receive_byte
decode-plain b rest plain = ground arith

-- From either state of the escaping entity, in the middle of an escape too, two reset symbols
-- reset the core, and what follows is decoded from the normal state.
pub decode-reset :
    (mode : Mode) (rest : List ℕ)
    → (x : Symbol) × (decode mode (reset_symbol ∷ reset_symbol ∷ rest)
        ≡ x ∷ reset ∷ decode normal rest)
unfolding decode receive_byte
decode-reset normal rest = (reset, refl)
decode-reset escaping rest = (byte reset_symbol, refl)

-- Escaping at most doubles the length.
pub length-escape_all : (bytes : List ℕ) → length (escape_all bytes) ≤ 2 * length bytes
unfolding escape_all escape
length-escape_all [] = omega arith
length-escape_all (b ∷ bytes) =
    ground (arith, length-append (escape b) (escape_all bytes), length-escape_all bytes)

pub escape_all-append : (xs ys : List ℕ) → escape_all (xs ++ ys) ≡ escape_all xs ++ escape_all ys
unfolding escape_all
escape_all-append [] ys = refl
escape_all-append (x ∷ xs) ys =
    rw (escape_all-append xs ys) (sym (append_assoc (escape x) (escape_all xs) (escape_all ys)))
