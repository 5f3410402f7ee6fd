-- ===== src/Tests/Instances.antt =====
-- Concrete buffers, queues and texts, and the laws that they satisfy: integers in big-endian order, on
-- a machine of the same order, and queues that are lists.
use aidt.Prelude.{
  ℕ, zero, suc, ◌+◌, ◌*◌, ◌/◌, ◌%◌, ◌^◌, ◌<◌, ◌≡◌, refl, ap, Bool, true, false, List, [], ◌∷◌, ◌++◌,
  Option, none, some, Bytes, length, nat_beq, if◌then◌else◌, arith,
}
use aidt.Prelude.{All, pos, ◌-◌}
use aidt.Files.{Disk}
use aidt.DataStore.{MessageItem, FdItem, FdMap}
use aidt.DataStore.Messages.{Fits}
use aidt.Settings.{AdbaseConfig}
use aidt.Config.{WatcherFileInfo, Config}
use aidt.Reader.{Reader}
use aidt.Reader.Format.{Memory}
use aidt.Adbase.{BufferOps, IsBuffer, QueueOps, IsFifo, TextOps}

-- The last `n` digits of `v` in base 256.
abbrev int : ℕ → ℕ → Bytes → Bytes
int zero v behind = behind
int (suc n) v behind = int n (v / 256) (v % 256 ∷ behind)

-- The number that the first `n` bytes are, behind `acc`.
abbrev value : ℕ → ℕ → Bytes → ℕ × Bytes
value zero acc s = (acc, s)
value (suc n) acc [] = (acc, [])
value (suc n) acc (c ∷ s) = value n (acc * 256 + c) s

abbrev pub buffer_ops : BufferOps
buffer_ops = record {
  append = λ s t. s ++ t;
  append_int32 = λ s v. s ++ int 4 v [];
  append_int64 = λ s v. s ++ int 8 v [];
  read_int32 = value 4 0;
  read_int64 = value 8 0;
  memcpy32 = λ s. (value 4 0 s).0;
  network_to_host32 = λ v. v;
}

abbrev value32 : (v : ℕ) (s : Bytes) → v < 2 ^ 32 → value 4 0 (int 4 v [] ++ s) ≡ (v, s)
value32 v s h = ap (λ n. (n, s)) (omega (arith, h))

abbrev value64 : (v : ℕ) (s : Bytes) → v < 2 ^ 64 → value 8 0 (int 8 v [] ++ s) ≡ (v, s)
value64 v s h = ap (λ n. (n, s)) (omega (arith, h))

unfoldable pub buffer_laws : IsBuffer buffer_ops
buffer_laws = record {
  int32 = λ v. int 4 v [];
  int64 = λ v. int 8 v [];
  append_lem = λ s t. refl;
  append_int32_lem = λ s v. refl;
  append_int64_lem = λ s v. refl;
  length-int32 = λ v. refl;
  length-int64 = λ v. refl;
  read_int32_lem = value32;
  read_int64_lem = value64;
  network_lem = λ v h. ap (λ (p : ℕ × Bytes). p.0) (value32 v [] h);
}

module _ {A : Type 0} where
  abbrev list_pop : List A → Option (A × List A)
  list_pop [] = none
  list_pop (x ∷ xs) = some (x, xs)

  abbrev list_empty : List A → Bool
  list_empty [] = true
  list_empty (x ∷ xs) = false

abbrev pub list_queue : {A : Type 0} → QueueOps A
list_queue = record {
  push = λ xs x. xs ++ x ∷ [];
  try_pop = list_pop;
  get_size = length;
  empty = list_empty;
}

pub list_fifo : {A : Type 0} → IsFifo {A = A} list_queue
list_fifo = record {
  push_lem = λ xs x. refl;
  try_pop-nil = refl;
  try_pop-cons = λ x xs. refl;
  empty-nil = refl;
  empty-cons = λ x xs. refl;
  get_size_lem = λ xs. refl;
}

-- The parts of a text between separators; `part` is what was read of the first one.
abbrev pub parts : ℕ → Bytes → Bytes → List Bytes
parts c part [] = part ∷ []
parts c part (d ∷ s) =
    let next = parts c [] s in
    let more = parts c (part ++ d ∷ []) s in if nat_beq d c then part ∷ next else more

abbrev pub nonempty : List Bytes → List Bytes
nonempty [] = []
nonempty ([] ∷ rest) = nonempty rest
nonempty ((c ∷ s) ∷ rest) = (c ∷ s) ∷ nonempty rest

abbrev mem : ℕ → Bytes → Bool
mem c [] = false
mem c (d ∷ s) = if nat_beq c d then true else mem c s

abbrev trim_front : Bytes → Bytes → Bytes
trim_front cs [] = []
trim_front cs (c ∷ s) = if mem c cs then trim_front cs s else c ∷ s

abbrev kept : Bytes → ℕ → Bytes → Bytes
kept cs c [] = if mem c cs then [] else c ∷ []
kept cs c (d ∷ s) = c ∷ d ∷ s

abbrev trim_back : Bytes → Bytes → Bytes
trim_back cs [] = []
trim_back cs (c ∷ s) = kept cs c (trim_back cs s)

abbrev pub text_ops : TextOps
text_ops = record {
  explode = λ s c skip. if skip then nonempty (parts c [] s) else parts c [] s;
  trim = λ s cs. trim_back cs (trim_front cs s);
}

-- Two messages of topic 1, one for any partition and one for partition 1.
abbrev pub first_item : MessageItem
first_item = record {
  part_id = 2 ^ 32 - 1;
  try_num = 0;
  topic_name = b't' ∷ [];
  message = b'a' ∷ b'b' ∷ [];
}

abbrev pub second_item : MessageItem
second_item = record { part_id = 1; try_num = 2; topic_name = b't' ∷ []; message = b'c' ∷ [] }

abbrev pub both_items : List MessageItem
both_items = first_item ∷ second_item ∷ []

abbrev fits_of :
    (item : MessageItem)
    → item.part_id < 2 ^ 32
    → item.try_num < 2 ^ 32
    → length item.topic_name < 2 ^ 32
    → length item.message < 2 ^ 32
    → Fits item
fits_of item a b c d = record {
  part_id_fits = a;
  try_num_fits = b;
  topic_fits = c;
  message_fits = d;
}

pub first_item-Fits : Fits first_item
first_item-Fits = fits_of first_item (omega arith) (omega arith) (omega arith) (omega arith)

pub both_items-Fits : All Fits both_items
both_items-Fits = (
  first_item-Fits,
  (fits_of second_item (omega arith) (omega arith) (omega arith) (omega arith), tt),
)

-- Settings with a limit of two messages, three lines and eight bytes a line.
abbrev pub settings : AdbaseConfig
settings = record {
  daemon = true;
  pid_file = [];
  appid = pos 0;
  macid = pos 0;
  logs_dir = [];
  log_roll_size = 0;
  log_level = pos 0;
  is_async = true;
  is_start_mc = true;
  is_start_head = true;
  is_start_http = true;
  http_host = [];
  http_port = pos 0;
  http_timeout = pos 0;
  http_thread_num = pos 0;
  http_server_name = [];
  http_access_log_dir = [];
  http_accesslog_roll_size = pos 0;
  mc_host = [];
  mc_port = pos 0;
  mc_server_name = [];
  mc_thread_num = pos 0;
  head_host = [];
  head_port = pos 0;
  head_server_name = [];
  head_thread_num = pos 0;
  broker_list_producer_in = [];
  debug_in = [];
  queue_length_in = pos 0;
  security_protocol = [];
  sasl_mechanisms = [];
  kerberos_service_name = [];
  kerberos_principal = [];
  kerberos_cmd = [];
  kerberos_keytab = [];
  kerberos_min_time = [];
  sasl_username = [];
  sasl_password = [];
  interval_sync_offset = pos 0;
  aidt_config = [];
  malloc_trim_interval = pos 0;
  malloc_trim_pad = pos 0;
  message_queue_limit = pos 2;
  message_send_error = b'e' ∷ [];
  max_lines = pos 3;
  max_fd = pos 10;
  max_line_bytes = pos 8;
  offset_file = b'o' ∷ [];
  http_default_controller = [];
  http_default_action = [];
}

abbrev pub disk : Disk
disk = record { files = (b'o' ∷ [], b'x' ∷ []) ∷ []; writable = λ path. true }

abbrev pub read_only : Disk
read_only = record { files = (b'o' ∷ [], b'x' ∷ []) ∷ []; writable = λ path. false }

-- The position 0 in the file `/a`, whose setting is that of `/a`.
abbrev pub path_a : Bytes
path_a = b'/' ∷ b'a' ∷ []

abbrev pub path_b : Bytes
path_b = b'/' ∷ b'b' ∷ []

abbrev pub fd_item : FdItem
fd_item = record {
  pathfile = path_a;
  origfile = path_a;
  offset = 0;
  last_time = pos 0;
  move_protected = false;
  fs = none;
}

abbrev pub fd_maps : FdMap
fd_maps = (path_a, fd_item) ∷ []

abbrev pub file_info : WatcherFileInfo
file_info = record {
  path_file = path_a;
  is_dir = false;
  is_binary = false;
  is_recursive = false;
  time_wait = pos 3;
  delete_time = 0;
  move_time = 0;
  topic_name = b't' ∷ [];
  format = b'%' ∷ b's' ∷ [];
  excludes = [];
}

abbrev pub dir_info : WatcherFileInfo
dir_info = record file_info { path_file = b'/' ∷ b'd' ∷ []; is_dir = true; is_recursive = true }

abbrev pub config : Config
config = record { file_map = (path_a, file_info) ∷ (b'/' ∷ b'd' ∷ [], dir_info) ∷ []; queue = [] }

abbrev pub reader : Reader
reader = record {
  fd_map = fd_maps;
  alias_map = [];
  current_fd_num = 0;
  running = true;
  streams = [];
  next_stream = 0;
}

abbrev pub memory : Memory
memory = record { slack = λ s. b'x' ∷ 0 ∷ []; fresh = λ n. n }
