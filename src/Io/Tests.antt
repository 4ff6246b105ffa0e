-- ===== src/Io/Tests.antt =====
-- Examples of the theorems on runtime/ioext.
use taskcluster_worker.Prelude.{false}
use taskcluster_worker.Io.AtMost.{eof, Source}

abbrev steady : Source
steady = record { ends_in = eof; gives = λ k. 2; is_eager = λ k. false }
