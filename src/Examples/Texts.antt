-- ===== src/Examples/Texts.antt =====
-- Runs on texts, targets and locations.
use webserer_core.Base.{◌≡◌, refl, codes, length, arith, ◌≤◌, false}
use webserer_core.Config.{covers, match_location}
use webserer_core.Config.Match.{match_location-BestMatch, BestMatch, covers_root}
use webserer_core.Uri.{pct_decode}
use webserer_core.Uri.Decode.{pct_decode-pct_encode, pct_encode, length-pct_decode}
use webserer_core.Examples.Data.{server, location}

match_location-BestMatch_example :
    BestMatch (codes "/img/big/a") server.locations (match_location server (codes "/img/big/a"))
match_location-BestMatch_example = match_location-BestMatch server (codes "/img/big/a")

covers_root_example : covers (codes "/index") (location (codes "/")) ≡ false
covers_root_example =
    covers_root (codes "/index") (location (codes "/")) b'/' b'i' (codes "ndex") refl refl
      (omega arith)

pct_decode-pct_encode_example : pct_decode (pct_encode (codes "a b/%")) ≡ codes "a b/%"
pct_decode-pct_encode_example =
    pct_decode-pct_encode (codes "a b/%")
      (omega arith, (omega arith, (omega arith, (omega arith, (omega arith, tt)))))

length-pct_decode_example : length (pct_decode (codes "%41%42")) ≤ 6
length-pct_decode_example = length-pct_decode (codes "%41%42")
