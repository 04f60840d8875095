-- ===== src/Directory/Reached.antt =====
-- Every operation keeps a directory sound.
use federate.Base.{Text, List, BTreeMap}
use federate.Host.{Host}
use federate.Directory.{NodeEntry, Addresses}
use federate.Directory.Registrations.{DirectorySerde}
use federate.Directory.Table.{Directory}
use federate.Directory.Sound.{IsKnown}

module _ (h : Host) (docs : DirectorySerde) (addresses : Addresses) where
  abbrev Known : BTreeMap NodeEntry → Text × List Text → Type 0
  Known nodes p = IsKnown h docs addresses nodes p.1
