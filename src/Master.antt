-- ===== src/Master.antt =====
-- ati_chip.cpp: the message of `authWithLocalMaster`; drm_master.cpp: the table of masters and the
-- server that the message goes to. A string is the list of the codes of its characters, a `long` is
-- its pattern of 64 bits, and `none` is an access out of bounds.
pub mod Decimal
pub mod Serving
pub mod Tests
use radeonsi_compute.Base.{
  ℕ, zero, suc, ◌+◌, ◌-◌, ◌*◌, ◌/◌, ◌%◌, ◌^◌, Bool, true, false, ◌&&◌, ◌||◌, not, ltb, leb, ◌==◌,
  if◌then◌else◌, Option, none, some, List, [], ◌∷◌, ◌++◌, min,
}

abbrev pub Text : Type 0
Text = List ℕ

-- The decimal digits of `n` in front of `acc`, with at most as many digits as there is fuel.
unfoldable pub decimal : ℕ → ℕ → Text → Text
decimal zero n acc = acc
decimal (suc fuel) n acc =
    let more = decimal fuel (n / 10) ((48 + n % 10) ∷ acc) in
    if n / 10 == 0 then (48 + n % 10) ∷ acc else more

-- `%li`; a `long` has at most 19 digits.
unfoldable pub print_long : ℕ → Text
unfolding decimal
print_long n = if ltb n (2 ^ 63) then decimal 19 n [] else 45 ∷ decimal 19 (2 ^ 64 - n) []

abbrev pub first_chars : ℕ → Text → Text
first_chars zero s = []
first_chars (suc n) [] = []
first_chars (suc n) (c ∷ s) = c ∷ first_chars n s

-- What `authWithLocalMaster` sends: `snprintf` into 1024 bytes, up to the 0.
unfoldable pub auth_message : Text → ℕ → Text
unfolding print_long
auth_message busid magic = first_chars 1023 (busid ++ (32 ∷ print_long magic))

abbrev pub is_space : ℕ → Bool
is_space c = (c == 32) || (leb 9 c && leb c 13)

abbrev pub is_digit : ℕ → Bool
is_digit c = leb 48 c && leb c 57

abbrev pub skip_space : Text → Text
skip_space [] = []
skip_space (c ∷ s) = if is_space c then skip_space s else c ∷ s

-- `%s` at a character that is no space: the word and what follows.
abbrev pub scan_word : Text → Text × Text
scan_word [] = ([], [])
scan_word (c ∷ s) =
    let (word, rest) = scan_word s in if is_space c then ([], c ∷ s) else (c ∷ word, rest)

abbrev pub scan_digits : Text → ℕ → ℕ
scan_digits [] v = v
scan_digits (c ∷ s) v = if is_digit c then scan_digits s (v * 10 + (c - 48)) else v

-- Digits with a greatest value; none without a digit.
abbrev pub scan_number : ℕ → Text → Option ℕ
scan_number most [] = none
scan_number most (c ∷ s) = if is_digit c then some (min (scan_digits (c ∷ s) 0) most) else none

-- `%li`, which stops at the least and the greatest `long`.
abbrev pub scan_long : Text → Option ℕ
scan_long [] = none
scan_long (c ∷ s) =
    if c == 45
    then elim (scan_number (2 ^ 63) s) [ none ↦ none | some v ↦ some ((2 ^ 64 - v) % 2 ^ 64) ]
    else if c == 43
    then scan_number (2 ^ 63 - 1) s
    else scan_number (2 ^ 63 - 1) (c ∷ s)

-- `sscanf(buf, "%s %li", busid, &magic)` where the answer is 2.
unfoldable pub parse_message : Text → Option (Text × ℕ)
parse_message s =
    let (busid, rest) = scan_word (skip_space s) in
    elim (scan_long (skip_space rest)) [
      | none ↦ none
      | some magic ↦ elim busid [ [] ↦ none | c ∷ cs ↦ some (c ∷ cs, magic) ]
    ]

-- `std::map<std::string, int>`; a descriptor is the pattern of an `int`.
abbrev pub Drms : Type 0
Drms = List (Text × ℕ)

abbrev pub same_text : Text → Text → Bool
same_text [] [] = true
same_text [] (c ∷ t) = false
same_text (c ∷ s) [] = false
same_text (c ∷ s) (d ∷ t) = (c == d) && same_text s t

abbrev pub find_drm : Drms → Text → Option ℕ
find_drm [] busid = none
find_drm ((b, fd) ∷ rest) busid = if same_text b busid then some fd else find_drm rest busid

-- `drms[busid] = fd`.
abbrev pub set_drm : Drms → Text → ℕ → Drms
set_drm [] busid fd = (busid, fd) ∷ []
set_drm ((b, old) ∷ rest) busid fd =
    if same_text b busid then (b, fd) ∷ rest else (b, old) ∷ set_drm rest busid fd

-- `buf` up to the first 0; the server puts one behind what it has received.
abbrev pub c_string : Text → Text
c_string [] = []
c_string (c ∷ s) = if c == 0 then [] else c ∷ c_string s

-- The answer "ACK" or "NACK".
pub data Answer : Type 0 where
  ack : Answer
  nack : Answer

-- What is asked of the system: `open`, `drmSetBusid`, `drmSetMaster` and `drmAuthMagic`.
pub record Drm (D : Type 0) : Type 0 where
  pub open_node : Text → D → ℕ × D
  pub set_busid : ℕ → Text → D → D
  pub set_master : ℕ → D → ℕ × D
  pub auth_magic : ℕ → ℕ → D → ℕ × D

-- A device with its bus id and the path of its node.
pub record AtiDevice : Type 0 where
  pub busid : Text
  pub devpath : Text

module _ {D : Type 0} (drm : Drm D) where
  -- The loop of `main` over the devices.
  unfoldable pub set_masters : List AtiDevice → Drms → D → Drms × D
  set_masters [] drms d = (drms, d)
  set_masters (dev ∷ rest) drms d =
      let (fd, d1) = drm.open_node dev.devpath d in
      let (ret, d2) = drm.set_master fd (drm.set_busid fd dev.busid d1) in
      let skipped = set_masters rest drms d in
      let refused = set_masters rest drms d2 in
      let added = set_masters rest (set_drm drms dev.busid fd) d2 in
      elim dev.devpath [ [] ↦ skipped | c ∷ cs ↦ if leb (2 ^ 31) ret then refused else added ]

  -- What the server does with a message that it can read.
  unfoldable pub authenticate_client : Drms → Text × ℕ → D → Answer × D
  authenticate_client drms (busid, magic) d = elim (find_drm drms busid) [
    | none ↦ (nack, d)
    | some fd ↦ let (ret, d') = drm.auth_magic fd magic d in (if ret == 0 then ack else nack, d')
  ]

  -- One round of `drmServer`; where `recvfrom` fails, `buf[n]` lies in front of `buf`.
  unfoldable pub serve : Drms → Option Text → D → Option (Answer × D)
  unfolding parse_message authenticate_client
  serve drms none d = none
  serve drms (some received) d = some (elim (parse_message (c_string (first_chars 1023 received))) [
    | none ↦ (nack, d)
    | some client ↦ authenticate_client drms client d
  ])

  -- The rounds for the messages that come, until there are no more.
  unfoldable pub drm_server : Drms → List (Option Text) → D → Option (List Answer × D)
  unfolding serve
  drm_server drms [] d = some ([], d)
  drm_server drms (m ∷ ms) d = elim (serve drms m d) [
    | none ↦ none
    | some (a, d') ↦ elim (drm_server drms ms d') [
      | none ↦ none
      | some (answers, d'') ↦ some (a ∷ answers, d'')
    ]
  ]
