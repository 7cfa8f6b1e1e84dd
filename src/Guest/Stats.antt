-- ===== src/Guest/Stats.antt =====
-- pkg/resourcemanager/macos_stats.go: the reading of the statistics that the script in the guest
-- prints. The script itself and the execution over SSH are arguments.
use mac_os_vz_kubelet.Common.{
  ℕ, suc, ◌+◌, ◌-◌, ◌%◌, ◌^◌, ◌≤◌, String, ◌<>◌, Option, none, some, List, [], ◌∷◌, ◌++◌, take,
  length, leb, if◌then◌else◌, GoError, wrap, ◌⊎◌, inl, inr, arith, Bool-cases, length-append, zero,
}

-- An int64, and its conversion to uint64.
pub data Int64 : Type 0 where
  non_negative : ℕ → Int64
  negative : ℕ → Int64

abbrev pub to_uint64 : Int64 → ℕ
to_uint64 (non_negative n) = n % 2 ^ 64
to_uint64 (negative n) = (2 ^ 64 - n) % 2 ^ 64

-- vmStatsData, the json.Number of each field.
pub record VmStatsData : Type 0 where
  pub cpu_usage_nano_cores : String
  pub cpu_usage_core_nano_seconds : String
  pub memory_usage_bytes : String
  pub memory_rss_bytes : String
  pub memory_working_set_bytes : String

-- parsedVMStatsData
pub record ParsedVmStatsData : Type 0 where
  pub cpu_usage_nano_cores : ℕ
  pub cpu_usage_core_nano_seconds : ℕ
  pub memory_usage_bytes : ℕ
  pub memory_rss_bytes : ℕ
  pub memory_working_set_bytes : ℕ

infixl 5 ◌>>=◌
abbrev pub ◌>>=◌ : {A B : Type 0} → GoError ⊎ A → (A → GoError ⊎ B) → GoError ⊎ B
inl e >>= f = inl e
inr a >>= f = f a

-- `int64` is the method Int64 of json.Number.
module _ (int64 : String → GoError ⊎ Int64) where
  abbrev pub named : String → GoError ⊎ Int64 → GoError ⊎ ℕ
  named field (inl e) = inl (wrap field e)
  named field (inr v) = inr (to_uint64 v)

  abbrev pub convert : String → String → GoError ⊎ ℕ
  convert field num = named field (int64 num)

  abbrev pub parse_fields : VmStatsData → GoError ⊎ ParsedVmStatsData
  parse_fields d = do
    nano_cores ← convert "cpuUsageNanoCores" d.cpu_usage_nano_cores
    core_nano_seconds ← convert "cpuUsageCoreNanoSeconds" d.cpu_usage_core_nano_seconds
    usage ← convert "memoryUsageBytes" d.memory_usage_bytes
    rss ← convert "memoryRssBytes" d.memory_rss_bytes
    working_set ← convert "memoryWorkingSetBytes" d.memory_working_set_bytes
    inr (record {
      cpu_usage_nano_cores = nano_cores;
      cpu_usage_core_nano_seconds = core_nano_seconds;
      memory_usage_bytes = usage;
      memory_rss_bytes = rss;
      memory_working_set_bytes = working_set;
    })

  -- The argument is what json.Unmarshal makes of the output.
  unfoldable pub parse_stats_json : GoError ⊎ VmStatsData → GoError ⊎ ParsedVmStatsData
  parse_stats_json (inl e) = inl e
  parse_stats_json (inr d) = parse_fields d

  -- `quote` is the verb %q, and `texts` Go's string of bytes.
  abbrev pub parse_failed :
      (List ℕ → String) → List ℕ → GoError ⊎ ParsedVmStatsData → GoError ⊎ ParsedVmStatsData
  parse_failed quote shown (inl e) =
      inl (wrap ("error parsing JSON output (stderr=" <> quote shown <> ")") e)
  parse_failed quote shown (inr s) = inr s

-- The bound of the part of stderr that an error shows.
abbrev pub max_stderr_in_error : ℕ
max_stderr_in_error = 1024

-- A text is the list of its bytes; `omitted` prints the marker for a number of bytes.
unfoldable pub truncate_for_error : (ℕ → List ℕ) → List ℕ → ℕ → List ℕ
truncate_for_error omitted s limit =
    if leb (length s) limit then s else take limit s ++ omitted (length s - limit)

-- GetVirtualMachineStats without the time: the error of the execution, what json.Unmarshal makes of
-- stdout, and stderr are arguments.
unfoldable pub get_virtual_machine_stats :
    (String → GoError ⊎ Int64)
    → (ℕ → List ℕ)
    → (List ℕ → String)
    → Option GoError
    → GoError ⊎ VmStatsData
    → List ℕ
    → GoError ⊎ ParsedVmStatsData
unfolding parse_stats_json truncate_for_error
get_virtual_machine_stats int64 omitted quote (some e) stdout stderr =
    inl (wrap "error executing script" e)
get_virtual_machine_stats int64 omitted quote none stdout stderr =
    parse_failed int64 quote (truncate_for_error omitted stderr max_stderr_in_error)
      (parse_stats_json int64 stdout)

length-take_at : {A : Type 0} (n : ℕ) (xs : List A) → length (take n xs) ≤ n
length-take_at n [] = omega arith
length-take_at zero (x ∷ xs) = omega arith
length-take_at (suc n) (x ∷ xs) = omega (arith, length-take_at n xs)

-- A text in an error is at most as long as the limit and the longest marker.
length-truncate_for_error :
    (omitted : ℕ → List ℕ) (s : List ℕ) (limit marker : ℕ)
    → ((n : ℕ) → length (omitted n) ≤ marker)
    → length (truncate_for_error omitted s limit) ≤ limit + marker
unfolding truncate_for_error
length-truncate_for_error omitted s limit marker h = elim (Bool-cases (leb (length s) limit)) [
  | inl k ↦ rw k (ground (arith, k))
  | inr k ↦ rw k (
      omega (
        arith,
        length-append (take limit s) (omitted (length s - limit)),
        length-take_at limit s,
        h (length s - limit),
      ))
]
