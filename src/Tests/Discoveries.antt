-- ===== src/Tests/Discoveries.antt =====
-- The discovery at concrete answers. An address is a number here.
use obs_zcamera.Prelude.{
  ℕ, ◌≡◌, ◌/◌, refl, true, false, some, List, [], ◌∷◌, ◌++◌, codes, arith, Text, decimal,
}
use obs_zcamera.Discovery.{
  MdnsRecord, type_ptr, type_a, inet, Answer, Discovery, Event, answer, run, search,
}
use obs_zcamera.Discovery.Known.{IsKnown}
use obs_zcamera.Discovery.Answers.{run-IsKnown}
use obs_zcamera.Discovery.Listing.{cameras, search-cameras}

abbrev nobody : MdnsRecord ℕ ℕ
nobody = record {
  has_ptr = false;
  ptr_record = [];
  has_a = false;
  a_record = 0;
  has_aaaa = false;
  aaaa_record = 0;
  last_available = 0;
}

abbrev empty : Discovery ℕ ℕ
empty = record { current_transaction_id = 0; current = nobody; ssp_records = []; running = true }

abbrev suffix : Text
suffix = codes "._eagle._tcp.local."

abbrev pointer : Answer ℕ ℕ
pointer = record {
  transaction_id = 1;
  rtype = type_ptr;
  family = inet;
  name = codes "E2" ++ suffix;
  addr = 0;
  addr6 = 0;
  now = 1000000;
}

abbrev address : Answer ℕ ℕ
address = record pointer { rtype = type_a; name = []; addr = 9; now = 2000000 }

abbrev answers : List (Event ℕ ℕ)
answers = answer pointer ∷ answer address ∷ []

run-IsKnown_example : (d' : Discovery ℕ ℕ) × ((run answers empty ≡ some d') × IsKnown d')
run-IsKnown_example =
    run-IsKnown answers empty ((λ e. omega arith), ((λ e. absurd (cc e)), tt)) (tt, tt)

abbrev heard : MdnsRecord ℕ ℕ
heard = record nobody {
  has_ptr = true;
  ptr_record = codes "E2";
  has_a = true;
  a_record = 9;
  last_available = 60002;
}

abbrev found : Discovery ℕ ℕ
found = record empty { ssp_records = (codes "E2", heard) ∷ [] }

search-cameras_example :
    search decimal decimal 5000000 found
    ≡ cameras decimal decimal (5000000 / 1000000) ((codes "E2", heard) ∷ [])
search-cameras_example =
    search-cameras decimal decimal 5000000 found (((refl, refl, refl), tt), (tt, tt))
