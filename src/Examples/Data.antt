-- ===== src/Examples/Data.antt =====
-- A server, a connection and a few buffers to run the model on.
use webserer_core.Base.{
  ℕ, ◌+◌, ◌*◌, ◌/◌, refl, ◌∷◌, [], none, some, true, false, Bytes, codes, arith, length, ◌≤◌, leb,
  ◌==◌,
}
use native.Mathlib.Nat.{le-div_iff_mul-le}
use webserer_core.Buffer.{Buffer}
use webserer_core.Buffer.Queue.{IsValid}
use webserer_core.Buffer.Client.{Sound}
use webserer_core.Config.{Location, Server}
use webserer_core.Connection
use webserer_core.Connection.{Connection}
use webserer_core.Handler.Replies.{FileSystem, opened, listed}
use webserer_core.Request
use webserer_core.Request.{HttpRequest, ParseState}
use webserer_core.Numerals.{max_long}
use webserer_core.Sizes.{Doubles}
use webserer_core.Sizes.Exact.{Exact}
use webserer_core.Validation.{Files}

abbrev pub location : Bytes → Location
location path = record {
  path = path;
  root = codes "/srv";
  index_files = [];
  autoindex = false;
  allowed_methods = codes "GET" ∷ [];
  cgi_paths = [];
  cgi_extensions = [];
  cgi_map = [];
  upload = [];
  return_code = none;
  return_value = [];
  client_max_body_size = 0;
  error_page = [];
  redirect_enabled = false;
}

abbrev pub server : Server
server = record {
  host = codes "127.0.0.1";
  port = some 8080;
  timeout_seconds = 60;
  root = codes "/srv";
  client_max_body_size = 100;
  index_files = [];
  server_name = codes "a.org";
  error_page = [];
  locations = location (codes "/img") ∷ location (codes "/img/big") ∷ [];
}

abbrev pub holding : Bytes → Buffer
holding bytes = record { cmbs = 100; storage = bytes; head = 0; capacity = 100 }

abbrev pub request : HttpRequest
request = Request.create 100

abbrev pub connection : Bytes → Connection
connection bytes = record (Connection.create 3 server 0) { read_buffer = holding bytes }

pub holding-IsValid : (bytes : Bytes) → length bytes ≤ 100 → IsValid (holding bytes)
holding-IsValid bytes h = record { head_within = omega arith; stored = h; roomy = omega arith }

pub holding-Sound : (bytes : Bytes) → length bytes ≤ 100 → Sound (holding bytes)
holding-Sound bytes h = record { valid = holding-IsValid bytes h; small = omega (arith, h) }

-- A request in the middle of its body, with nothing read of it yet.
abbrev pub posting : ℕ → HttpRequest
posting n = record (Request.create 100) {
  parse_state = ParseState.body;
  path = codes "/img";
  max_body_size = 100;
  content_length = n;
}

-- Numbers without fractions, for `double`.
abbrev pub whole_numbers : Doubles ℕ
whole_numbers = record {
  of_nat = λ n. n;
  add = λ m n. m + n;
  times = λ m n. m * n;
  divide = λ m n. m / n;
  negate = λ n. 0;
  at_most = leb;
  is_same = λ m n. m == n;
  truncate = λ n. n;
}

-- Every path is a directory and a file, and may be used.
abbrev pub all_files : Files
all_files = record {
  is_directory = λ path. true;
  is_regular_file = λ path. true;
  is_readable = λ path. true;
  is_writable = λ path. true;
  is_executable = λ path. true;
}

abbrev pub small_conf : Bytes
small_conf = codes "http{server{listen 80;root /s;index a.b;timeout 5;location /{autoindex on;}}}"

-- A file system with one empty file under every name.
abbrev pub file_system : FileSystem
file_system = record {
  stat = λ path. some (record { is_directory = false; is_regular = true; st_size = 0 });
  open_file = λ path. opened [];
  opendir = λ path. listed [];
  remove = λ path. none;
  creates = λ path. true;
  take_bytes = λ path n. 1;
  date = [];
  time = 0;
}

abbrev pub uploads : Server
uploads = record server {
  locations =
      record (location (codes "/up")) {
        allowed_methods = codes "POST" ∷ codes "DELETE" ∷ [];
        upload = codes "/store";
      }
      ∷ [];
}

abbrev pub asking : Bytes → Bytes → HttpRequest
asking method path = record (Request.create 100) { method = method; path = path }

pub whole_numbers-Exact : Exact whole_numbers 1000000
whole_numbers-Exact = record {
  add_nat = λ m n h. refl;
  times_nat = λ m n h. refl;
  above_zero = λ n h. ground arith;
  truncate_nat = λ n h. refl;
  same_nat = λ n h. ground arith;
  room = λ n m k h.
      let r : n ≤ max_long / m = (le-div_iff_mul-le k).1 (omega (arith, h)) in ground arith;
}
