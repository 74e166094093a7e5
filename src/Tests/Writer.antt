-- ===== src/Tests/Writer.antt =====
-- quotedprintable/writer.go
use mime.Base.{[], ◌∷◌, ◌++◌, false, some, none, All, length, refl, arith}
use mime.Base.Bytes.{Bytes, codes}
use mime.QuotedPrintable.Bounds.{IsValid, Written, Ended, write_all-Written, close-Ended}
use mime.QuotedPrintable.Decoding.{IsInput, meaning}
use mime.QuotedPrintable.Padding
use mime.QuotedPrintable.Padding.{Delivers, Delivery, Complete, write_all-Delivery, close-Complete}
use mime.QuotedPrintable.Spec
use mime.QuotedPrintable.Writer
use mime.QuotedPrintable.Writer.{Sink, new_writer, write_all, close}

-- a sink that takes one line and refuses the next, and one that takes all
abbrev one_line : Sink
one_line [] chunk = none
one_line (_ ∷ _) chunk = some 7

abbrev accepting : Sink
accepting out chunk = none

-- two lines that end in blanks
abbrev input : Bytes
input = codes "a = b \nc\t"

abbrev written : Writer.Writer
written = (write_all accepting input (new_writer false)).0

new-IsValid : IsValid (new_writer false)
new-IsValid = record { room = omega arith; text = tt; lines = tt }

new-Delivers : Delivers false [] (new_writer false)
unfolding Spec.feed Padding.delete_blanks
new-Delivers = record { valid = new-IsValid; decodes = refl; same_mode = refl; no_cr = refl }

input-IsInput : All (IsInput false) input
input-IsInput = omega arith

written-IsValid : IsValid written
unfolding Writer.computes
written-IsValid = (write_all-Written accepting input (new_writer false) new-IsValid).0

written-Delivers : Delivers false (meaning false input) written
unfolding Writer.computes
written-Delivers = write_all-Delivery accepting input (new_writer false) input-IsInput new-Delivers

write_all-Written_example : Written (length input) (write_all one_line input (new_writer false))
write_all-Written_example = write_all-Written one_line input (new_writer false) new-IsValid

close-Ended_example : Ended (close accepting written)
close-Ended_example = close-Ended accepting written written-IsValid

write_all-Delivery_example :
    Delivery one_line false
      ([] ++ meaning false input)
      (write_all one_line input (new_writer false))
write_all-Delivery_example =
    write_all-Delivery one_line input (new_writer false) input-IsInput new-Delivers

close-Complete_example : Complete accepting (meaning false input) (close accepting written)
close-Complete_example = close-Complete accepting written written-Delivers
