-- ===== src/Itch/Parser/Tests.antt =====
-- The parser on a message of each outcome.
use tickpipe.Base.{◌≡◌, ◌↔◌, ◌+◌, true, false, some, bytes_of, arith, Bytes, update}
use tickpipe.Itch.Order.{empty_order}
use tickpipe.Itch.Parser.{no_counts, parse}
use tickpipe.Itch.Parser.Outcome.{Accepts, parse-true_iff}
use tickpipe.Itch.Parser.Reads.{parse-reads_within}
use tickpipe.Itch.Parser.Wire.{Fields, executed_price, wire, meaning, Fits, parse-wire}

abbrev fields : Fields
fields = record {
  locate = 7;
  tracking = 0;
  time = 34_200_000_000_000;
  ref = 1001;
  new_ref = 1002;
  match_ref = 55;
  shares = 300;
  price = 1_502_500;
  buying = true;
  printable = false;
  stock = λ i. 65 + i;
  mpid = 9;
}

fields-Fits : Fits fields
fields-Fits = record {
  locate = ground arith;
  time = ground arith;
  ref = ground arith;
  new_ref = ground arith;
  match_ref = ground arith;
  shares = ground arith;
  price = ground arith;
}

abbrev message : Bytes
message = bytes_of (wire executed_price fields)

parse-wire_example :
    parse no_counts (some message) 36 empty_order
    ≡ (true, meaning executed_price fields, record no_counts { parsed = 1 })
parse-wire_example = parse-wire fields fields-Fits no_counts empty_order executed_price

parse-true_iff_example :
    ((parse no_counts (some message) 36 empty_order).0 ≡ true) ↔ Accepts (some message) 36
parse-true_iff_example = parse-true_iff no_counts (some message) 36 empty_order

parse-reads_within_example :
    parse no_counts (some message) 36 empty_order
    ≡ parse no_counts (some (update message 36 255)) 36 empty_order
parse-reads_within_example =
    parse-reads_within 36 message (update message 36 255) (λ i lt. ground arith) no_counts
      empty_order
