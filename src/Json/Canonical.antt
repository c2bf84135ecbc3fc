-- ===== src/Json/Canonical.antt =====
-- `canonical` of pipeline/task_broker.py: `json.dumps(value, sort_keys=True,
-- separators=(',', ':'), allow_nan=False)`, as the list of the ASCII codes that it prints, and
-- `str.encode`, the UTF-8 bytes of a text.
use growth_clockwork.Prelude.{
  ℕ, zero, suc, ◌+◌, ◌-◌, ◌/◌, ◌%◌, String, true, false, List, [], ◌∷◌, ◌++◌, codes, ltb, leb,
  text_leb, ◌==◌, ◌&&◌, ◌||◌, map, ◌≡◌, refl, if◌then◌else◌,
}
use growth_clockwork.Prelude.Int.{ℤ, pos, negsuc}
use growth_clockwork.Json.{
  Json, null, bool, num, str, arr, obj, Items, nil, cons, Fields, end, field,
}

-- The decimal digits of `n` in front of `rest`; `n + 1` rounds are enough.
decimal : ℕ → ℕ → List ℕ → List ℕ
decimal zero n rest = rest
decimal (suc f) n rest =
    let more = decimal f (n / 10) ((48 + n % 10) ∷ rest) in
    if ltb n 10 then (48 + n) ∷ rest else more

unfoldable pub print_int : ℤ → List ℕ
unfolding decimal
print_int (pos n) = decimal (n + 1) n []
print_int (negsuc n) = b'-' ∷ decimal (n + 2) (n + 1) []

hex_digit : ℕ → ℕ
hex_digit d = if ltb d 10 then 48 + d else 87 + d

-- `\uXXXX`
unicode_escape : ℕ → List ℕ
unfolding hex_digit
unicode_escape u =
    b'\\'
    ∷ b'u'
    ∷ hex_digit (u / 4096 % 16)
    ∷ hex_digit (u / 256 % 16)
    ∷ hex_digit (u / 16 % 16)
    ∷ hex_digit (u % 16)
    ∷ []

-- One character of a string; outside the basic plane it is a pair of surrogates.
print_char : ℕ → List ℕ
unfolding unicode_escape
print_char c =
    if c == 34
    then 92 ∷ 34 ∷ []
    else if c == 92
    then 92 ∷ 92 ∷ []
    else if c == 10
    then 92 ∷ b'n' ∷ []
    else if c == 13
    then 92 ∷ b'r' ∷ []
    else if c == 9
    then 92 ∷ b't' ∷ []
    else if c == 8
    then 92 ∷ b'b' ∷ []
    else if c == 12
    then 92 ∷ b'f' ∷ []
    else if ltb c 32 || (leb 127 c && ltb c 65536)
    then unicode_escape c
    else if leb 65536 c
    then unicode_escape (55296 + (c - 65536) / 1024) ++ unicode_escape (56320 + (c - 65536) % 1024)
    else c ∷ []

print_chars : List ℕ → List ℕ
unfolding print_char
print_chars [] = []
print_chars (c ∷ cs) = print_char c ++ print_chars cs

print_string : String → List ℕ
unfolding print_chars
print_string s = 34 ∷ (print_chars (codes s) ++ 34 ∷ [])

-- `sort_keys=True`: the printed members by their keys.
abbrev Member : Type 0
Member = String × List ℕ

insert_member : Member → List Member → List Member
unfolding text_leb
insert_member m [] = m ∷ []
insert_member m (n ∷ ns) =
    let rest = insert_member m ns in
    if text_leb (codes m.0) (codes n.0) then m ∷ n ∷ ns else n ∷ rest

sort_keys : List Member → List Member
unfolding insert_member
sort_keys [] = []
sort_keys (m ∷ ms) = insert_member m (sort_keys ms)

-- The parts with commas between them.
join_commas : List (List ℕ) → List ℕ
join_commas [] = []
join_commas (p ∷ []) = p
join_commas (p ∷ q ∷ ps) = p ++ b',' ∷ join_commas (q ∷ ps)

print_member : Member → List ℕ
unfolding print_string
print_member (k, v) = print_string k ++ 58 ∷ v

mutual
  print_value : Json → List ℕ
  print_value null = codes "null"
  print_value (bool true) = codes "true"
  print_value (bool false) = codes "false"
  print_value (num n) = print_int n
  print_value (str s) = print_string s
  print_value (arr xs) = 91 ∷ (join_commas (print_items xs) ++ 93 ∷ [])
  print_value (obj fs) =
      123 ∷ (join_commas (map print_member (sort_keys (print_fields fs))) ++ 125 ∷ [])

  print_items : Items → List (List ℕ)
  print_items nil = []
  print_items (cons v vs) = print_value v ∷ print_items vs

  print_fields : Fields → List Member
  print_fields end = []
  print_fields (field k v fs) = (k, print_value v) ∷ print_fields fs

unfoldable pub canonical : Json → List ℕ
unfolding print_value print_string print_int join_commas print_member sort_keys
canonical v = print_value v

-- `str.encode()` of one character.
encode_char : ℕ → List ℕ
encode_char c =
    if ltb c 128
    then c ∷ []
    else if ltb c 2048
    then (192 + c / 64) ∷ (128 + c % 64) ∷ []
    else if ltb c 65536
    then (224 + c / 4096) ∷ (128 + c / 64 % 64) ∷ (128 + c % 64) ∷ []
    else (240 + c / 262144) ∷ (128 + c / 4096 % 64) ∷ (128 + c / 64 % 64) ∷ (128 + c % 64) ∷ []

encode_chars : List ℕ → List ℕ
unfolding encode_char
encode_chars [] = []
encode_chars (c ∷ cs) = encode_char c ++ encode_chars cs

unfoldable pub encode : String → List ℕ
unfolding encode_chars
encode s = encode_chars (codes s)

-- `{"b":[1,-20],"a":"é\n"}` is printed with its keys in order.
canonical_sample :
    canonical (
      obj (
        field "b"
          (arr (cons (num (pos 1)) (cons (num (negsuc 19)) nil)))
          (field "a" (str "é\n") end)))
    ≡ codes "{\"a\":\"\\u00e9\\n\",\"b\":[1,-20]}"
unfolding canonical
canonical_sample = refl
