-- ===== src/Settings.antt =====
-- The settings of the program (src/AdbaseConfig.hpp), and how an option of the ini file comes into them.
-- The ini files are adbase's: `none` is an exception. Each setting is assigned as soon as its option is
-- read, so what was assigned before an exception stays.
use aidt.Prelude.{◌≡◌, ap, ◌∙◌, ℕ, ℤ, Bool, true, false, Option, none, some, ◌>>=◌, Bytes, to_int}

pub record AdbaseConfig : Type 0 where
  pub daemon : Bool
  pub pid_file : Bytes
  pub appid : ℤ
  pub macid : ℤ
  pub malloc_trim_pad : ℤ
  pub malloc_trim_interval : ℤ
  pub logs_dir : Bytes
  pub log_roll_size : ℕ
  pub log_level : ℤ
  pub is_async : Bool
  pub is_start_mc : Bool
  pub is_start_head : Bool
  pub is_start_http : Bool
  pub http_host : Bytes
  pub http_port : ℤ
  pub http_timeout : ℤ
  pub http_thread_num : ℤ
  pub http_default_controller : Bytes
  pub http_default_action : Bytes
  pub http_server_name : Bytes
  pub http_access_log_dir : Bytes
  pub http_accesslog_roll_size : ℤ
  pub head_host : Bytes
  pub head_port : ℤ
  pub head_server_name : Bytes
  pub head_thread_num : ℤ
  pub mc_host : Bytes
  pub mc_port : ℤ
  pub mc_server_name : Bytes
  pub mc_thread_num : ℤ
  pub broker_list_producer_in : Bytes
  pub debug_in : Bytes
  pub queue_length_in : ℤ
  pub security_protocol : Bytes
  pub sasl_mechanisms : Bytes
  pub kerberos_service_name : Bytes
  pub kerberos_principal : Bytes
  pub kerberos_cmd : Bytes
  pub kerberos_keytab : Bytes
  pub kerberos_min_time : Bytes
  pub sasl_username : Bytes
  pub sasl_password : Bytes
  pub interval_sync_offset : ℤ
  pub aidt_config : Bytes
  pub message_queue_limit : ℤ
  pub message_send_error : Bytes
  pub max_lines : ℤ
  pub max_fd : ℤ
  pub max_line_bytes : ℤ
  pub offset_file : Bytes

-- What is called of adbase's ini files: a file by its path, and an option by its section and name.
pub record IniOps (Ini : Type 0) : Type 0 where
  pub load_file : Bytes → Option Ini
  pub get_option : Ini → Bytes → Bytes → Option Bytes
  pub get_option_bool : Ini → Bytes → Bytes → Option Bool
  pub get_option_uint32 : Ini → Bytes → Bytes → Option ℕ

-- What a run of assignments leaves, and whether it came to its end.
abbrev pub Load : Type 0
Load = AdbaseConfig → AdbaseConfig × Bool

-- One assignment.
unfoldable pub assign {ℓ} : {A : Type ℓ} → Option A → (A → AdbaseConfig → AdbaseConfig) → Load
assign none f s = (s, false)
assign (some a) f s = (f a s, true)

infixl 5 ◌>>◌
unfoldable pub ◌>>◌ : Load → Load → Load
◌>>◌ first second s = let out = first s in elim out.1 [ true ↦ second out.0 | false ↦ out ]

pub assign-some {ℓ} :
    {A : Type ℓ} {o : Option A} {a : A} (f : A → AdbaseConfig → AdbaseConfig) (s : AdbaseConfig)
    → o ≡ some a
    → assign o f s ≡ (f a s, true)
unfolding assign
assign-some f s h = ap (λ x. assign x f s) h

pub assign-none {ℓ} :
    {A : Type ℓ} {o : Option A} (f : A → AdbaseConfig → AdbaseConfig) (s : AdbaseConfig)
    → o ≡ none
    → assign o f s ≡ (s, false)
unfolding assign
assign-none f s h = ap (λ x. assign x f s) h

-- What follows assignments that came to their end, and ones that did not.
pub >>-done :
    (l m : Load) {s t : AdbaseConfig} {out : AdbaseConfig × Bool}
    → l s ≡ (t, true)
    → m t ≡ out
    → (l >> m) s ≡ out
unfolding ◌>>◌
>>-done l m h next = ap (λ x. elim x.1 [ true ↦ m x.0 | false ↦ x ]) h ∙ next

pub >>-stopped : (l m : Load) {s t : AdbaseConfig} → l s ≡ (t, false) → (l >> m) s ≡ (t, false)
unfolding ◌>>◌
>>-stopped l m h = ap (λ x. elim x.1 [ true ↦ m x.0 | false ↦ x ]) h

-- An option of 32 bits that is assigned to an `int`.
abbrev pub as_int : Option ℕ → Option ℤ
as_int o = o >>= λ n. some (to_int n)
