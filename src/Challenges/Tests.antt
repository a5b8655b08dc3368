-- ===== src/Challenges/Tests.antt =====
-- The challenge store at concrete inputs.
use yeah.Base.{none, List, [], ◌∷◌, codes, empty, Dict, equal, ◌≡◌, refl}
use yeah.Challenges.{Entry, put, take_challenge}
use yeah.Challenges.OneShot.{Call, puts, takes, after, take_challenge_once}

abbrev one_stored : Dict Entry
one_stored = put empty (codes "u1") (codes "abc") 1000 1000

abbrev others : List Call
others = puts (codes "u2") (codes "def") 2000 2001 ∷ takes (codes "u2") 2500 ∷ []

expired : (take_challenge one_stored (codes "u1") 301_001).1 ≡ none
unfolding take_challenge put equal
expired = refl

take_challenge_once_example :
    (take_challenge
      (after (take_challenge one_stored (codes "u1") 1500).0 others)
      (codes "u1")
      3000).1
    ≡ none
unfolding equal
take_challenge_once_example = take_challenge_once one_stored (codes "u1") 1500 3000 others refl
