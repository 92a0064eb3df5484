-- ===== src/Rpc/Xmlrpc.antt =====
-- rpc/xmlrpc.{h,cpp}: values, members and structs as XML; process.cpp, `get_info`.
-- How the standard library prints an `int` is the argument `show`.
use supervisorcpp.Prelude.{
  ℕ, ◌-◌, ◌/◌, ◌%◌, Bool, ◌||◌, List, [], ◌∷◌, ◌++◌, none, some, ltb, if◌then◌else◌, ℤ, pos, Bytes,
  codes,
}
use supervisorcpp.Util.Escape.{escape_xml}
use supervisorcpp.Process.Types.{
  Process, State, running, starting, state_eq, state_name, state_code, Log,
}
use supervisorcpp.Process.Life.{get_uptime}

-- The variant of `Value`.
pub data Value : Type 0 where
  text : Bytes → Value
  int : ℤ → Value
  boolean : Bool → Value

pub record Member : Type 0 where
  pub name : Bytes
  pub value : Value

unfoldable pub show_value : (ℤ → Bytes) → Value → Bytes
show_value show (text s) = codes "<string>" ++ (escape_xml s ++ codes "</string>")
show_value show (int i) = codes "<int>" ++ (show i ++ codes "</int>")
show_value show (boolean b) =
    codes "<boolean>" ++ ((if b then codes "1" else codes "0") ++ codes "</boolean>")

unfoldable pub show_member : (ℤ → Bytes) → Member → Bytes
unfolding show_value
show_member show m =
    codes "<member>"
    ++ (codes "<name>"
        ++ (escape_xml m.name
            ++ (codes "</name>"
                ++ (codes "<value>"
                    ++ (show_value show m.value ++ (codes "</value>" ++ codes "</member>"))))))

unfoldable pub show_members : (ℤ → Bytes) → List Member → Bytes
unfolding show_member
show_members show [] = []
show_members show (m ∷ r) = show_member show m ++ show_members show r

unfoldable pub show_struct : (ℤ → Bytes) → List Member → Bytes
unfolding show_members
show_struct show items = codes "<struct>" ++ (show_members show items ++ codes "</struct>")

-- process.h, `ProcessInfo`.
pub record ProcessInfo : Type 0 where
  pub name : Bytes
  pub state : State
  pub pid : ℤ
  pub exitstatus : ℤ
  pub stdout_logfile : Bytes
  pub stderr_logfile : Bytes
  pub spawnerr : Bytes
  pub now : ℕ
  pub start : ℕ
  pub stop : ℕ
  pub description : Bytes

abbrev or_no_file : Log → Bytes
or_no_file log = elim log.file [ none ↦ [] | some f ↦ f ]

-- `std::setfill('0') << std::setw(2)`.
unfoldable pub two_digits : (ℤ → Bytes) → ℕ → Bytes
two_digits show n = if ltb n 10 then codes "0" ++ show (pos n) else show (pos n)

unfoldable pub describe : (ℤ → Bytes) → ℤ → ℕ → Bytes
unfolding two_digits
describe show pid uptime =
    codes "pid "
    ++ (show pid
        ++ (codes ", uptime "
            ++ (show (pos (uptime / 3600))
                ++ (codes ":"
                    ++ (two_digits show (uptime % 3600 / 60)
                        ++ (codes ":" ++ two_digits show (uptime % 60)))))))

-- `get_info`, at a time of the steady clock and of the system clock.
unfoldable pub get_info : (ℤ → Bytes) → ℕ → ℕ → Process → ProcessInfo
unfolding describe get_uptime
get_info show now system_now p =
    let up = state_eq p.state running || state_eq p.state starting in
    record {
      name = p.config.name;
      state = p.state;
      pid = p.pid;
      exitstatus = p.exitstatus;
      stdout_logfile = or_no_file p.config.stdout_log;
      stderr_logfile = or_no_file p.config.stderr_log;
      spawnerr = p.spawn_error;
      now = system_now / 1000000000;
      start = if up then (system_now - (now - p.start_time)) / 1000000000 else 0;
      stop = 0;
      description = if up then describe show p.pid (get_uptime now p) else [];
    }

abbrev member : Bytes → Value → Member
member name value = record { name = name; value = value }

-- `wrap(info)`; the group is the name.
unfoldable pub show_info : (ℤ → Bytes) → ProcessInfo → Bytes
unfolding show_struct
show_info show i = show_struct show (
    member (codes "name") (text i.name)
    ∷ member (codes "group") (text i.name)
    ∷ member (codes "statename") (text (state_name i.state))
    ∷ member (codes "state") (int (pos (state_code i.state)))
    ∷ member (codes "pid") (int i.pid)
    ∷ member (codes "exitstatus") (int i.exitstatus)
    ∷ member (codes "stdout_logfile") (text i.stdout_logfile)
    ∷ member (codes "spawnerr") (text i.spawnerr)
    ∷ member (codes "description") (text i.description)
    ∷ [])

unfoldable pub show_items : (ℤ → Bytes) → List ProcessInfo → Bytes
unfolding show_info
show_items show [] = []
show_items show (i ∷ r) =
    codes "<value>" ++ (show_info show i ++ (codes "</value>" ++ show_items show r))

-- `wrap(infos)`.
unfoldable pub show_infos : (ℤ → Bytes) → List ProcessInfo → Bytes
unfolding show_items
show_infos show l = codes "<array><data>" ++ (show_items show l ++ codes "</data></array>")
