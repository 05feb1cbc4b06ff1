-- ===== src/Scopes/Shown.antt =====
-- How a renamed name is written in a message: `shown` of src/checker.rs.
use Prim.Native.String.{◌++◌}
use aipl.Base.{String, Char, code, is_code, leb, ◌==◌, Bool, ◌&&◌, ◌||◌, if◌then◌else◌}

-- `char::is_whitespace`: Unicode's White_Space.
abbrev pub is_whitespace : Char → Bool
is_whitespace c =
    let n = code c in
    (leb 9 n && leb n 13)
    || n == 32
    || n == 133
    || n == 160
    || n == 5760
    || (leb 8192 n && leb n 8202)
    || n == 8232
    || n == 8233
    || n == 8239
    || n == 8287
    || n == 12288

-- One of `<>,()[]:`, or a space: where a placeholder's name ends.
unfoldable pub ends_name : Char → Bool
ends_name c =
    is_whitespace c
    || is_code c b'<'
    || is_code c b'>'
    || is_code c b','
    || is_code c b'('
    || is_code c b')'
    || is_code c b'['
    || is_code c b']'
    || is_code c b':'

abbrev pub one : Char → String
one c = String.◌∷◌ c String.[]

-- `name.rsplit('.').next()`: `part` is what stands after the last dot so far.
unfoldable pub last_part : String → String → String
last_part part String.[] = part
last_part part (String.◌∷◌ c s) =
    let after = last_part "" s in
    let more = last_part (part ++ one c) s in if is_code c b'.' then after else more

-- The two loops: outside a placeholder's name, or inside it with the name so far. The character that
-- ends a name is no quote, so the outer loop writes it as it is.
unfoldable mutual
  pub shown_outside : String → String
  shown_outside String.[] = String.[]
  shown_outside (String.◌∷◌ c s) =
      let name = shown_inside "" s in
      let rest = shown_outside s in if is_code c b'\'' then name else String.◌∷◌ c rest

  pub shown_inside : String → String → String
  shown_inside name String.[] = last_part "" name
  shown_inside name (String.◌∷◌ c s) =
      let rest = shown_outside s in
      let more = shown_inside (name ++ one c) s in
      if ends_name c then last_part "" name ++ String.◌∷◌ c rest else more

unfoldable pub shown : String → String
unfolding shown_outside
shown text = shown_outside text
