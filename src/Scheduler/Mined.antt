-- ===== src/Scheduler/Mined.antt =====
-- From the write buffers of the scheduler through the plot file to the reader: what a miner reads is what a
-- validator generates.
use pocx.Base.{ℕ, List, some}
use mathlib.Core.Option
use pocx.Plotfile.{PlotFile, read_only}
use pocx.Plotfile
use pocx.Plotfile.Write.{Plot}

-- The plot with the contents `c`, opened again to be read.
abbrev pub reopened : Plot → List ℕ → PlotFile
reopened p c = record {
  number_of_warps = p.file.number_of_warps;
  file_handle = some c;
  access = read_only;
  read_progress = 0;
}
