-- ===== src/Client/Commands.antt =====
-- internal/cli/job.go: the commands that manage background jobs.
use temenos.Base.{
  length-take_le, ◌≤◌, not, ◌||◌, List, [], ◌∷◌, ◌++◌, if◌then◌else◌, Bytes, codes, bytes_eq,
  is_empty, ltb, take, length, length-append, Result, ok, err, arith, Bool-cases, inl, inr,
}
use temenos.Base.Int.{ℤ}
use temenos.Client.{ClientError}

-- `JobInfo` of the client, as it is decoded: times are texts.
pub record Job : Type 0 where
  pub id : Bytes
  pub caller_id : Bytes
  pub command : Bytes
  pub status : Bytes
  pub exit_code : ℤ
  pub stdout : Bytes
  pub stderr : Bytes
  pub started_at : Bytes
  pub completed_at : Bytes

-- The column of the list.
unfoldable pub short_command : Bytes → Bytes
short_command c = if ltb 40 (length c) then take 37 c ++ codes "..." else c

unfoldable pub list_rows : List Job → Bytes
unfolding short_command
list_rows [] = []
list_rows (j ∷ js) =
    let rest = list_rows js in
    j.id
    ++ (codes "\t"
        ++ (short_command j.command
            ++ (codes "\t"
                ++ (j.status ++ (codes "\t" ++ (j.started_at ++ (codes "\n" ++ rest)))))))

-- `job list`: what is printed. `tabulate` is the writer of text/tabwriter.
unfoldable pub job_list : (Bytes → Bytes) → Result ClientError (List Job) → Result ClientError Bytes
unfolding list_rows
job_list tabulate (err e) = err e
job_list tabulate (ok []) = ok (codes "no jobs found\n")
job_list tabulate (ok (j ∷ js)) =
    ok (tabulate (codes "ID\tCOMMAND\tSTATUS\tSTARTED\n" ++ list_rows (j ∷ js)))

abbrev section_of : Bytes → Bytes → Bytes
section_of title text =
    if not (is_empty text) then title ++ (codes "\n" ++ (text ++ codes "\n")) else []

-- `job log`; `show` is the verb `%d`.
unfoldable pub job_log : (ℤ → Bytes) → Result ClientError Job → Result ClientError Bytes
unfolding bytes_eq
job_log show (err e) = err e
job_log show (ok j) =
    let ending =
      if bytes_eq j.status (codes "completed") || bytes_eq j.status (codes "killed")
      then codes "(exit code: "
        ++ (show j.exit_code ++ (codes ", status: " ++ (j.status ++ codes ")\n")))
      else codes "(status: " ++ (j.status ++ codes ")\n") in
    ok
      (section_of (codes "[stdout]") j.stdout ++ (section_of (codes "[stderr]") j.stderr ++ ending))

-- `job kill`
unfoldable pub job_kill : Result ClientError Job → Result ClientError Bytes
job_kill (err e) = err e
job_kill (ok j) = ok (codes "killed job " ++ (j.id ++ (codes " (" ++ (j.command ++ codes ")\n"))))

-- The column is never wider than forty bytes.
length-short_command : (c : Bytes) → length (short_command c) ≤ 40
unfolding short_command
length-short_command c = elim (Bool-cases (ltb 40 (length c))) [
  | inl long ↦
      rw (short_command, long)
        (let cut : length (take 37 c) ≤ 37 = length-take_le 37 c in
          rw (length-append (take 37 c) (codes "...")) (omega arith))
  | inr short ↦ rw (short_command, short) (ground arith)
]
