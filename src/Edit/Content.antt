-- ===== src/Edit/Content.antt =====
-- crates/shell-mcp/src/tools/text.rs: from the bytes of a file to a text, and slices of it. A file holds
-- bytes; `Codec` has what the standard library and `encoding_rs` decode.
use ferrite_mcp.Prelude.{
  ℕ, zero, suc, ◌+◌, ◌-◌, ◌*◌, Bool, false, not, ◌&&◌, ◌||◌, Option, none, some, List, [], ◌∷◌,
  length, take, ltb, ◌==◌, if◌then◌else◌, Text, byte_len, len_utf8, Result, ok, err, ◌>>=◌,
}

abbrev pub Bytes : Type 0
Bytes = List ℕ

-- `String::from_utf8` and its lossy form, `into_bytes`, and `encoding_rs`' UTF-16 decoders, which say
-- whether they met an error.
pub record Codec : Type 0 where
  pub from_utf8 : Bytes → Option Text
  pub from_utf8_lossy : Bytes → Text
  pub utf_16le : Bytes → Text × Bool
  pub utf_16be : Bytes → Text × Bool
  pub into_bytes : Text → Bytes

pub record TextOptions : Type 0 where
  pub max_bytes : ℕ
  pub lossy : Bool
  pub normalize_newlines : Bool

abbrev pub default_options : TextOptions
default_options = record { max_bytes = 2 * 1024 * 1024; lossy = false; normalize_newlines = false }

pub data Encoding : Type 0 where
  binary utf8 utf16le utf16be : Encoding

pub data TextError : Type 0 where
  io : (path : Text) → TextError
  too_large : (path : Text) (size limit : ℕ) → TextError
  is_binary : (path : Text) → TextError
  invalid_encoding : (path : Text) → Encoding → TextError
  line_range_out_of_bounds : (path : Text) (start end_line available : ℕ) → TextError
  byte_range_out_of_bounds : (path : Text) (start end_byte available : ℕ) → TextError

pub record TextReport : Type 0 where
  pub size_bytes : ℕ
  pub encoding : Encoding
  pub line_count : ℕ
  pub normalized_newlines : Bool

unfoldable pub has_zero : Bytes → Bool
has_zero [] = false
has_zero (b ∷ bs) = b == 0 || has_zero bs

-- `SNIFF_LEN`
abbrev pub sniff_len : ℕ
sniff_len = 8 * 1024

-- what the buffer begins with
unfoldable pub begins : ℕ → ℕ → Bytes → Bool
begins a b (x ∷ y ∷ bs) = x == a && y == b
begins a b _ = false

unfoldable pub detect_encoding : Bytes → Encoding
unfolding has_zero begins
detect_encoding buf =
    if begins 0xFF 0xFE buf
    then utf16le
    else if begins 0xFE 0xFF buf
    then utf16be
    else if has_zero (take sniff_len buf)
    then binary
    else utf8

-- `\r\n` and bare `\r` become `\n`
unfoldable pub normalize_newlines : Text → Text
normalize_newlines [] = []
normalize_newlines (c ∷ []) = (if c == b'\r' then b'\n' else c) ∷ []
normalize_newlines (c ∷ d ∷ s) =
    let pair = b'\n' ∷ normalize_newlines s in
    let single = (if c == b'\r' then b'\n' else c) ∷ normalize_newlines (d ∷ s) in
    if c == b'\r' && d == b'\n' then pair else single

-- the number of `\n`
unfoldable pub newlines : Text → ℕ
newlines [] = 0
newlines (c ∷ s) = (if c == b'\n' then 1 else 0) + newlines s

unfoldable pub ends_with_newline : Text → Bool
ends_with_newline [] = false
ends_with_newline (c ∷ []) = c == b'\n'
ends_with_newline (c ∷ d ∷ s) = ends_with_newline (d ∷ s)

unfoldable pub count_lines : Text → ℕ
unfolding newlines ends_with_newline
count_lines [] = 0
count_lines (c ∷ s) = newlines (c ∷ s) + (if ends_with_newline (c ∷ s) then 0 else 1)

-- the two error cases of a UTF-16 decoder
unfoldable pub strict : Text → Encoding → Bool → Text × Bool → Result TextError (Encoding × Text)
strict path e lossy (text, had_errors) =
    if had_errors && not lossy then err (invalid_encoding path e) else ok (e, text)

unfoldable pub decode_utf8 : Codec → Text → Bytes → Bool → Result TextError (Encoding × Text)
decode_utf8 c path buf lossy = elim (c.from_utf8 buf) [
  | some s ↦ ok (utf8, s)
  | none ↦ if lossy then ok (utf8, c.from_utf8_lossy buf) else err (invalid_encoding path utf8)
]

-- the decoder that the detected encoding calls
unfoldable pub decode_as :
    Codec → Text → Bytes → Bool → Encoding → Result TextError (Encoding × Text)
unfolding strict decode_utf8
decode_as c path buf lossy binary = err (is_binary path)
decode_as c path buf lossy utf8 = decode_utf8 c path buf lossy
decode_as c path buf lossy utf16le = strict path utf16le lossy (c.utf_16le buf)
decode_as c path buf lossy utf16be = strict path utf16be lossy (c.utf_16be buf)

unfoldable pub decode_bytes :
    Codec → Text → Bytes → ℕ → TextOptions → Result TextError (Text × TextReport)
unfolding decode_as detect_encoding normalize_newlines count_lines
decode_bytes c path buf size opts = do
  (e, raw) ← decode_as c path buf opts.lossy (detect_encoding buf)
  let text = if opts.normalize_newlines then normalize_newlines raw else raw
  ok (
    text,
    record {
      size_bytes = size;
      encoding = e;
      line_count = count_lines text;
      normalized_newlines = opts.normalize_newlines;
    },
  )

-- the test in front of the read: a file above the budget is refused by its size alone
unfoldable pub load : Codec → Text → Bytes → TextOptions → Result TextError (Text × TextReport)
unfolding decode_bytes
load c path buf opts =
    if ltb opts.max_bytes (length buf)
    then err (too_large path (length buf) opts.max_bytes)
    else decode_bytes c path buf (length buf) opts

-- The loop of `read_slice_lines` on what is left of the text, at line `line`: what stands from line
-- `start` to the end of line `last`.
unfoldable pub slice_lines : (start last line : ℕ) → Text → Text
slice_lines start last line [] = []
slice_lines start last line (c ∷ s) =
    let rest = slice_lines start last (if c == b'\n' then line + 1 else line) s in
    if ltb last line then [] else if ltb line start then rest else c ∷ rest

unfoldable pub read_slice_lines :
    Text → (start_line end_line : ℕ) → Text × TextReport → Result TextError (Text × TextReport)
unfolding slice_lines count_lines
read_slice_lines path start_line end_line (text, report) =
    if start_line == 0
      || end_line == 0
      || ltb end_line start_line
      || ltb report.line_count start_line
    then err (line_range_out_of_bounds path start_line end_line report.line_count)
    else (let last = if ltb end_line report.line_count then end_line else report.line_count in
        let slice = slice_lines start_line last 1 text in
        ok (
          slice,
          record {
            size_bytes = report.size_bytes;
            encoding = report.encoding;
            line_count = count_lines slice;
            normalized_newlines = report.normalized_newlines;
          },
        ))

-- From a byte offset on, at the next char boundary.
unfoldable pub skip_bytes : ℕ → Text → Text
skip_bytes n [] = []
skip_bytes zero (c ∷ s) = c ∷ s
skip_bytes (suc n) (c ∷ s) = skip_bytes (suc n - len_utf8 c) s

-- Up to a byte offset, with the char that it is inside of.
unfoldable pub keep_bytes : ℕ → Text → Text
keep_bytes n [] = []
keep_bytes zero (c ∷ s) = []
keep_bytes (suc n) (c ∷ s) = c ∷ keep_bytes (suc n - len_utf8 c) s

-- `read_slice_bytes`: both ends are moved forward to a char boundary
unfoldable pub read_slice_bytes :
    Text → (start end_byte : ℕ) → Text × TextReport → Result TextError (Text × TextReport)
unfolding skip_bytes keep_bytes count_lines
read_slice_bytes path start end_byte (text, report) =
    if ltb end_byte start || ltb (byte_len text) end_byte
    then err (byte_range_out_of_bounds path start end_byte (byte_len text))
    else (let slice = skip_bytes start (keep_bytes end_byte text) in
        ok (
          slice,
          record {
            size_bytes = report.size_bytes;
            encoding = report.encoding;
            line_count = count_lines slice;
            normalized_newlines = report.normalized_newlines;
          },
        ))
