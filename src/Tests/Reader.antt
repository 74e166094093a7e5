-- ===== src/Tests/Reader.antt =====
-- quotedprintable/reader.go
use mime.Base.{false, none, refl, arith}
use mime.Base.Bytes.{codes}
use mime.QuotedPrintable.Reader.{Reader, new_reader, read}
use mime.QuotedPrintable.ReaderWork.{IsValid}
use mime.QuotedPrintable.ReaderReturns.{Gives, read-Gives}

abbrev sample : Reader
sample = new_reader false (record { rest = codes "a=3D\r\nb= "; fail = none })

sample-IsValid : IsValid sample
sample-IsValid = record { array = refl; held_back = omega arith }

read-Gives_example : Gives 20 (read 100 20 sample)
read-Gives_example = read-Gives 100 20 sample sample-IsValid (omega arith)
