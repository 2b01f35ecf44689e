-- ===== src/Tests/Formats.antt =====
-- Formats that are expanded.
use bogofilter.Prelude.{
  Bytes, List, [], arith, codes, false, if◌then◌else◌, length, none, refl, some, take, ◌++◌, ◌<◌,
  ◌↔◌, ◌∷◌, ◌≡◌,
}
use bogofilter.Mime.Header.{c_string}
use bogofilter.Passthrough.{rc_spam}
use bogofilter.Datastore.{done}
use bogofilter.BogoUtil.{}
use bogofilter.Format.{Values, convert_format_to_string}
use bogofilter.Format.Total.{Expands, convert_format_to_string-Expands}
use bogofilter.Format.Steps.{number_from, Piece, literal, directive}
use bogofilter.Format.Directives.{spell_all, convert_format_to_string-Expansion}
use bogofilter.Format.Expansion.{
  Expansion, nothing, byte, value, header_name, class, complement, spamicity, turned, is_spam_class,
  limited,
}
use bogofilter.Format.Plain.{convert_format_to_string-text}

abbrev values : Values
values = record {
  status = rc_spam;
  msg_addr = [];
  msg_id = codes "<1@example>";
  queue_id = [];
  spamicity_tags = λ status. codes "Spam";
  spam_header_name = codes "X-Bogosity";
  logtag = [];
  reg = codes "s";
  unreg = [];
  user = codes "me";
  wrdcount = 120;
  msgcount = 1;
  version = codes "1.2.4";
  date = codes "2026-11-25T21:30:00Z";
  spamicity_text = λ flipped. if flipped then codes "0.000100" else codes "0.999900";
  float_text = λ flipped c spec. codes "0.9999";
}

-- `%h:%8.2c%d%p`
abbrev pieces : List Piece
pieces =
    directive [] none b'h'
    ∷ literal b':'
    ∷ directive (codes "8") (some (codes "2")) b'c'
    ∷ directive [] none b'd'
    ∷ directive [] none b'p'
    ∷ []

abbrev expansion_text : Bytes
expansion_text =
    codes "X-Bogosity" ++ (b':' ∷ (codes "Sp" ++ (codes "0.000100" ++ (codes "0.000100" ++ []))))

pieces-Expansion : Expansion values false pieces expansion_text
unfolding turned is_spam_class limited number_from c_string
pieces-Expansion = value [] none b'h' (codes "X-Bogosity") header_name (
    byte b':' (
      value (codes "8") (some (codes "2")) b'c' (codes "Sp") class (
        value [] none b'd' (codes "0.000100") complement
          (value [] none b'p' (codes "0.000100") spamicity nothing))))

convert_format_to_string-Expansion_example :
    convert_format_to_string values 256 (spell_all pieces) ≡ done expansion_text
unfolding number_from
convert_format_to_string-Expansion_example =
    convert_format_to_string-Expansion values 256 pieces expansion_text pieces-Expansion
      (
        (tt, (refl, refl, refl)),
        (
          (refl, refl),
          (
            ((refl, tt), ((refl, tt), omega arith), (refl, refl, refl)),
            ((tt, (refl, refl, refl)), ((tt, (refl, refl, refl)), tt)),
          ),
        ),
      )
      (omega arith)

convert_format_to_string-Expands_example :
    Expands 8 (convert_format_to_string values 8 (codes "%h"))
convert_format_to_string-Expands_example = convert_format_to_string-Expands values 8 (codes "%h")

-- A buffer of three bytes is full, and the NUL is stored behind it.
convert_format_to_string-text_example :
    (convert_format_to_string values 3 (codes "abc") ≡ done (take 3 (codes "abc")))
    × (length (take 3 (codes "abc")) < 3 ↔ length (codes "abc") < 3)
convert_format_to_string-text_example =
    convert_format_to_string-text values 3 (codes "abc")
      ((refl, refl), ((refl, refl), ((refl, refl), tt)))
