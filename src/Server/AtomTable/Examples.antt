-- ===== src/Server/AtomTable/Examples.antt =====
-- src/glasswyrmd/atom_table.cpp on the predefined table.
use glasswyrm.Prelude.{false}
use glasswyrm.Server.AtomTable.{AtomTable, make_table, intern}
use glasswyrm.Server.AtomTable.Interning.{IsConsistent, intern-IsConsistent}
use glasswyrm.Server.AtomTable.Predefined.{make_table-IsConsistent}

abbrev fresh : AtomTable
fresh = make_table 100

fresh-IsConsistent : IsConsistent fresh
fresh-IsConsistent = make_table-IsConsistent 100

intern-IsConsistent_example : IsConsistent (intern "_GLASSWYRM" false fresh).0
intern-IsConsistent_example = intern-IsConsistent "_GLASSWYRM" false fresh fresh-IsConsistent
