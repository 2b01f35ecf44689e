-- ===== src/Register/Tally.antt =====
-- What a run of bogofilter/src/register.c should make of the counts of a word.
use bogofilter.Prelude.{
  Bool, List, [], ap, arith, false, if◌then◌else◌, ltb, refl, true, ℕ, ◌%◌, ◌+◌, ◌-◌, ◌^◌, ◌∙◌, ◌∷◌,
  ◌≡◌,
}
use bogofilter.Word.{Word}
use bogofilter.WordHash.{same_word}
use bogofilter.Datastore.{Dsv, msg_count_tok}
use bogofilter.Register.Update.{registered}
use bogofilter.Register.{Sh, update_counts, update_msgs, ix_spam, ix_good, ix_undf}

-- One of the two counts, where `n` is added modulo 2 ^ 32, or taken out as far as there is so much.
unfoldable pub tally : Bool → Bool → ℕ → ℕ → ℕ
tally adds takes n c = let c' = if adds then (c + n) % 2 ^ 32 else c in if takes then c' - n else c'

pub is_spam_side : Sh → Bool
is_spam_side ix_spam = true
is_spam_side ix_good = false
is_spam_side ix_undf = false

pub is_good_side : Sh → Bool
is_good_side ix_spam = false
is_good_side ix_good = true
is_good_side ix_undf = false

-- Both counts, each of which changes for its own side only.
unfoldable pub tallied : Sh → Sh → ℕ → Dsv → Dsv
tallied incr decr n v = record v {
  spamcount = tally (is_spam_side incr) (is_spam_side decr) n v.spamcount;
  goodcount = tally (is_good_side incr) (is_good_side decr) n v.goodcount;
}

taken_out : (c n : ℕ) → (if ltb c n then 0 else c - n) ≡ c - n
taken_out c n = ground arith

left_over : (c n : ℕ) → (if ltb n c then c - n else 0) ≡ c - n
left_over c n = ground arith

pub update_counts-tallied :
    (incr decr : Sh) (n : ℕ) (v : Dsv) → update_counts incr decr n v ≡ tallied incr decr n v
unfolding update_counts tallied tally is_spam_side is_good_side
update_counts-tallied ix_spam ix_spam n v i = record v {
  spamcount = taken_out ((v.spamcount + n) % 2 ^ 32) n i;
}
update_counts-tallied ix_spam ix_good n v i = record v {
  spamcount = (v.spamcount + n) % 2 ^ 32;
  goodcount = taken_out v.goodcount n i;
}
update_counts-tallied ix_spam ix_undf n v i = record v { spamcount = (v.spamcount + n) % 2 ^ 32 }
update_counts-tallied ix_good ix_spam n v i = record v {
  goodcount = (v.goodcount + n) % 2 ^ 32;
  spamcount = taken_out v.spamcount n i;
}
update_counts-tallied ix_good ix_good n v i = record v {
  goodcount = taken_out ((v.goodcount + n) % 2 ^ 32) n i;
}
update_counts-tallied ix_good ix_undf n v i = record v { goodcount = (v.goodcount + n) % 2 ^ 32 }
update_counts-tallied ix_undf ix_spam n v i = record v { spamcount = taken_out v.spamcount n i }
update_counts-tallied ix_undf ix_good n v i = record v { goodcount = taken_out v.goodcount n i }
update_counts-tallied ix_undf ix_undf n v i = v

pub update_msgs-tallied :
    (incr decr : Sh) (n : ℕ) (v : Dsv) → update_msgs incr decr n v ≡ tallied incr decr n v
unfolding update_msgs tallied tally is_spam_side is_good_side
update_msgs-tallied ix_spam ix_spam n v i = record v {
  spamcount = left_over ((v.spamcount + n) % 2 ^ 32) n i;
}
update_msgs-tallied ix_spam ix_good n v i = record v {
  spamcount = (v.spamcount + n) % 2 ^ 32;
  goodcount = left_over v.goodcount n i;
}
update_msgs-tallied ix_spam ix_undf n v i = record v { spamcount = (v.spamcount + n) % 2 ^ 32 }
update_msgs-tallied ix_good ix_spam n v i = record v {
  goodcount = (v.goodcount + n) % 2 ^ 32;
  spamcount = left_over v.spamcount n i;
}
update_msgs-tallied ix_good ix_good n v i = record v {
  goodcount = left_over ((v.goodcount + n) % 2 ^ 32) n i;
}
update_msgs-tallied ix_good ix_undf n v i = record v { goodcount = (v.goodcount + n) % 2 ^ 32 }
update_msgs-tallied ix_undf ix_spam n v i = record v { spamcount = left_over v.spamcount n i }
update_msgs-tallied ix_undf ix_good n v i = record v { goodcount = left_over v.goodcount n i }
update_msgs-tallied ix_undf ix_undf n v i = v

-- The counts of the key `u` after its words, from the value that it had.
unfoldable pub after_tokens : Sh → Sh → List (Word × ℕ) → Word → Dsv → Dsv
after_tokens incr decr [] u v = v
after_tokens incr decr ((w, freq) ∷ words) u v =
    after_tokens incr decr words u (if same_word w u then tallied incr decr freq v else v)

-- The counts of the key `u` after a run, from the value that it had: the words first, then the
-- counts of messages, which are kept under a key of their own.
unfoldable pub after_run : Sh → Sh → ℕ → List (Word × ℕ) → Word → Dsv → Dsv
after_run incr decr msgcount words u v =
    let r = after_tokens incr decr words u v in
    if same_word msg_count_tok u then tallied incr decr msgcount r else r

pub registered-after_tokens :
    (incr decr : Sh) (words : List (Word × ℕ)) (u : Word) (v : Dsv)
    → registered incr decr words u v ≡ after_tokens incr decr words u v
unfolding registered after_tokens
registered-after_tokens incr decr [] u v = refl
registered-after_tokens incr decr ((w, freq) ∷ words) u v =
    registered-after_tokens incr decr words u _
    ∙ ap (λ x. after_tokens incr decr words u (if same_word w u then x else v))
        (update_counts-tallied incr decr freq v)
