-- ===== src/Sipfw/LogFile.antt =====
-- LinuxCode/20/sipfw/module/sipfw_k_file.c: SIPFW_WriteLine and SIPFW_LogAppend. What filp_open
-- and get_seconds give is an argument; a line of the log is the record of the values that the code
-- formats into it.
use linux_program_practice.Sipfw.Clock.{localtime}
use linux_program_practice.Base.Int.{ℤ, pos, negsuc, eqb_ℤ}
use linux_program_practice.Base.{
  ℕ, ◌/◌, ◌%◌, ◌^◌, Bool, not, ◌&&◌, Option, none, some, List, [], ◌∷◌, ◌++◌, ◌==◌, if◌then◌else◌,
  ◌>>=◌, get_elem?,
}
use linux_program_practice.Sipfw.Types.{
  Tm, Conf, SkBuff, Rule, sipfw_action_name, sipfw_protocol_name,
}
use Prim.Native.String.{String}

-- The log file as SIPFW_OpenFile hands it over: what SIPFW_WriteLine tests of it, and whether its
-- write operation succeeds.
pub record LogFile : Type 0 where
  pub has_inode : Bool
  pub mode_read : Bool
  pub mode_write : Bool
  pub has_read : Bool
  pub has_write : Bool
  pub write_works : Bool

pub record LogLine : Type 0 where
  pub time : Tm
  pub from : List ℕ
  pub to : List ℕ
  pub protocol_name : Option String
  pub action_name : Option String

-- What the kernel gives while a packet is logged: the time, and the file if it opens.
pub record LogEnv : Type 0 where
  pub now : ℕ
  pub file : Option LogFile

-- SIPFW_WriteLine
pub write_line : LogFile → LogLine → List LogLine → List LogLine
write_line f line log =
    if f.has_inode && f.mode_write && f.mode_read && f.has_read && f.has_write && f.write_works
    then log ++ line ∷ []
    else log

-- The loop over sipfw_protocol_name; behind the last name the entry's pointer is null.
pub protocol_name_of : List (String × ℕ) → ℕ → Option String
protocol_name_of [] protocol = none
protocol_name_of ((name, value) ∷ names) protocol =
    if value == protocol then some name else protocol_name_of names protocol

-- sipfw_action_name[action].ptr, a fault outside the array.
abbrev pub action_name_of : ℤ → Option (Option String)
action_name_of (pos i) = get_elem? sipfw_action_name i
action_name_of (negsuc i) = none

-- The four bytes of an address, lowest first.
abbrev pub octets : ℕ → List ℕ
octets a = a % 256 ∷ a / 2 ^ 8 % 256 ∷ a / 2 ^ 16 % 256 ∷ a / 2 ^ 24 % 256 ∷ []

-- SIPFW_LogAppend
unfoldable pub log_append : LogEnv → Conf → SkBuff → Rule → List LogLine → Option (List LogLine)
log_append env cf skb r log = if not (eqb_ℤ cf.log_pause (pos 0)) then some log else elim env.file [
  | none ↦ some log
  | some f ↦ do
    cur ← localtime env.now
    action ← action_name_of r.action
    some (
        write_line f
          (record {
            time = cur;
            from = octets skb.iph.saddr;
            to = octets skb.iph.daddr;
            protocol_name = protocol_name_of sipfw_protocol_name skb.iph.protocol;
            action_name = action;
          })
          log)
]
