-- ===== src/Tests/Passing.antt =====
-- A message that is passed through, and the memory of its lines.
use bogofilter.Prelude.{
  Bytes, List, [], arith, codes, false, inl, none, refl, some, true, ◌++◌, ◌∷◌, ◌≡◌,
}
use bogofilter.Mime.Header.{begins_nocase}
use bogofilter.TextBlock.{TextBlocks, sub_mem, textblock_init, textblock_free}
use bogofilter.TextBlock.Memory.{add_all, textblock_free-cur_mem}
use bogofilter.Passthrough.{Options, rc_spam, write_message, begins, ends_with, ends_header}
use bogofilter.Passthrough.Lines.{without, first_eol}
use bogofilter.Passthrough.Follows.{delimited}
use bogofilter.Passthrough.Message.{passed, write_message-passed}

abbrev options : Options
options = record {
  passthrough = true;
  verbose = 0;
  terse = false;
  rtable = false;
  have_body = false;
  spam_header_name = codes "X-Bogosity:";
  spam_header_place = codes "To:";
  spam_subject_tag = some (codes "[SPAM]");
  unsure_subject_tag = none;
}

abbrev header_lines : List Bytes
header_lines =
    codes "subject: hello\r\n"
    ∷ codes "X-Bogosity: Ham\r\n"
    ∷ codes "\tversion=1\r\n"
    ∷ codes "To: you\r\n"
    ∷ []

abbrev end_of_header : Bytes
end_of_header = codes "\r\n"

abbrev body_lines : List Bytes
body_lines = codes "X-Bogosity: in the body\n" ∷ codes "no end" ∷ []

abbrev new_header : Bytes
new_header = codes "X-Bogosity: Spam"

write_message-passed_example :
    write_message options new_header
      (λ _. [])
      rc_spam
      none
      (header_lines ++ end_of_header ∷ body_lines)
    ≡ passed options new_header
        (λ _. [])
        rc_spam
        header_lines
        body_lines
        (first_eol (header_lines ++ end_of_header ∷ body_lines))
unfolding without ends_with ends_header begins
write_message-passed_example =
    write_message-passed options new_header (λ _. []) rc_spam none header_lines refl (omega arith)
      (omega arith) (refl, (refl, (refl, (refl, tt)))) (refl, (refl, tt)) (inl refl)
      (delimited end_of_header body_lines (omega arith) refl refl) (omega arith)

passed_text :
    passed options new_header (λ _. []) rc_spam header_lines body_lines (codes "\r\n")
    ≡ codes
        "subject: [SPAM] hello\r\nX-Bogosity: Spam\r\nTo: you\r\n\r\nX-Bogosity: in the body\nno end\r\n"
unfolding passed begins_nocase
passed_text = refl

-- The last line of a header that has no end stays without one, and the spam header stands on the same line.
unended_text :
    write_message options new_header (λ _. []) rc_spam none (codes "From: me" ∷ [])
    ≡ codes "From: meX-Bogosity: Spam\n\nSubject: [SPAM]\n\n"
unfolding write_message begins_nocase
unended_text = refl

abbrev no_blocks : TextBlocks
no_blocks = record { blocks = []; cur_mem = 0; max_mem = 0; tot_mem = 0 }

textblock_free-cur_mem_example :
    ((add_all 24 header_lines (textblock_init 24 8 no_blocks)).blocks ≡ header_lines)
    × ((textblock_free 24 8 (add_all 24 header_lines (textblock_init 24 8 no_blocks))).cur_mem
        ≡ sub_mem 0 24)
textblock_free-cur_mem_example = textblock_free-cur_mem 24 8 header_lines no_blocks
