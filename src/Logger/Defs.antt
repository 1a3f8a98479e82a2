-- ===== src/Logger/Defs.antt =====
-- The class `Logger`. A logger either has an output of its own, or a parent and the name that stands
-- before its lines. The time, as it is printed, is an argument.
use jsntp_lcdd.Prelude.{ℕ, Bool, true, false, List, [], ◌∷◌, ◌++◌, if◌then◌else◌, ltb, length}
use jsntp_lcdd.Prelude.Text.{codes}

-- `opened` is whether `m_fp` is set: a file that could not be opened is a null pointer. Without
-- HAS_SYSLOG the last type puts nothing out.
pub data OutputType : Type 0 where
  null_out stdout_out stderr_out callback_out syslog_out : OutputType
  file_out : (opened : Bool) → OutputType

pub data LogType : Type 0 where
  emerg alert crit err warning notice info debug undefined_type : LogType

pub data Logger : Type 0 where
  root : OutputType → Logger
  child : (parent : Logger) (prefix_name : List ℕ) → Logger

-- A line that was put out, nothing, or undefined behaviour: a text that does not fit its buffer of
-- 4096 bytes, or a null pointer for the file.
pub data Outcome : Type 0 where
  put : OutputType → List ℕ → Outcome
  ignored : Outcome
  overflowed : Outcome
  null_file : Outcome

abbrev pub buf_size : ℕ
buf_size = 4096

unfoldable pub type_name : LogType → List ℕ
type_name emerg = codes "EMERG"
type_name alert = codes "ALERT"
type_name crit = codes "CRIT"
type_name err = codes "ERR"
type_name warning = codes "WARN"
type_name notice = codes "NOTI"
type_name info = codes "INFO"
type_name debug = codes "DEBUG"
type_name undefined_type = codes "UNDEFINED"

-- `sprintf` of `"[%s] %s ... %d] %s\n"`; `stamp` is the time in it.
unfoldable pub stamped : LogType → (stamp text : List ℕ) → List ℕ
unfolding type_name
stamped t stamp text =
    b'[' ∷ type_name t ++ (codes "] " ++ (stamp ++ (codes "] " ++ (text ++ b'\n' ∷ []))))

unfoldable pub put_line : OutputType → List ℕ → Outcome
put_line out line = if ltb (length line) buf_size then put out line else overflowed

-- The part of `printf` of a logger without a parent, behind `vsprintf`.
unfoldable pub output : OutputType → LogType → (stamp text : List ℕ) → Outcome
unfolding stamped put_line
output stdout_out t stamp text = put_line stdout_out (stamped t stamp text)
output stderr_out t stamp text = put_line stderr_out (stamped t stamp text)
output callback_out t stamp text = put_line callback_out (stamped t stamp text)
output (file_out true) t stamp text = put_line (file_out true) (stamped t stamp text)
output (file_out false) t stamp text =
    if ltb (length (stamped t stamp text)) buf_size then null_file else overflowed
output null_out t stamp text = ignored
output syslog_out t stamp text = ignored

-- `_child_puts` on the logger itself; without a parent it is `printf` with `"%s: %s"`.
unfoldable pub child_puts : Logger → LogType → (stamp prefix text : List ℕ) → Outcome
unfolding output
child_puts (child parent name) t stamp prefix text =
    child_puts parent t stamp (name ++ (codes ": " ++ prefix)) text
child_puts (root out) t stamp prefix text =
    let line = prefix ++ (codes ": " ++ text) in
    if ltb (length line) buf_size then output out t stamp line else overflowed

-- `printf`, of the text that its format gives.
unfoldable pub printf : Logger → LogType → (stamp text : List ℕ) → Outcome
unfolding output child_puts
printf (root out) t stamp text =
    if ltb (length text) buf_size then output out t stamp text else overflowed
printf (child parent name) t stamp text =
    let passed = child_puts parent t stamp name text in
    if ltb (length text) buf_size then passed else overflowed

-- The destructor closes a file that is open.
unfoldable pub drop_logger : Logger → Logger
drop_logger (root (file_out opened)) = root (file_out false)
drop_logger l = l
