-- ===== src/Tests/Text.antt =====
-- The texts of IDs and topics, at concrete IDs.
use sharding_p2p_poc.Prelude.{pos, negsuc, ◌≡◌, refl, arith, codes}
use sharding_p2p_poc.Outcome.{ok}
use sharding_p2p_poc.Text.{format_int, format_uint, digits_loop, parse_int, get_collations_topic}
use sharding_p2p_poc.Text.Decimal.{parse_int-format_int}

topic_of_42 : get_collations_topic (pos 42) ≡ codes "shardCollations_42"
unfolding get_collations_topic format_int format_uint digits_loop
topic_of_42 = refl

parse_int-format_int_example :
    parse_int (format_int (negsuc 9223372036854775807)) ≡ ok (negsuc 9223372036854775807)
parse_int-format_int_example = parse_int-format_int (negsuc 9223372036854775807) (omega arith)
