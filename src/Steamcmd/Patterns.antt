-- ===== src/Steamcmd/Patterns.antt =====
-- The patterns of driver/steamcmd.go and driver/lifecycle.go.
pub mod AppId
use nomad_driver_steamcmd.Base.{ℕ, Text, bytes, nat_eq, ◌==◌, Bool, not, ◌||◌}
use nomad_driver_steamcmd.Regexp.{
  Re, one, blank, at_start, at_end, seq, either, greedy, lazy, group, match_string, literal,
  literal_fold, is_digit, is_letter, is_hex, is_blank, plus, spaces,
}

-- `Success!\s*App\s*'(\d+)'\s*(fully installed|fully updated|already up to date)`
unfoldable pub re_success : Re
re_success = seq (literal (bytes "Success!")) (
    seq spaces (
      seq (literal (bytes "App")) (
        seq spaces (
          seq (literal (bytes "'")) (
            seq (group 1 (plus (one is_digit))) (
              seq (literal (bytes "'")) (
                seq spaces (
                  group 2 (
                    either (literal (bytes "fully installed")) (
                      either (literal (bytes "fully updated"))
                        (literal (bytes "already up to date"))))))))))))

-- `(?i)ERROR!\s*(.+)`
unfoldable pub re_error : Re
re_error =
    seq (literal_fold (bytes "ERROR!")) (seq spaces (group 1 (plus (one (λ b. not (b == 10))))))

-- `FAILED \(|FAILED login|(?i:Invalid Password|Two-factor|Login Failure|Rate Limit Exceeded)`
unfoldable pub re_auth_err : Re
re_auth_err = either (literal (bytes "FAILED (")) (
    either (literal (bytes "FAILED login")) (
      either (literal_fold (bytes "Invalid Password")) (
        either (literal_fold (bytes "Two-factor")) (
          either (literal_fold (bytes "Login Failure"))
            (literal_fold (bytes "Rate Limit Exceeded"))))))

-- `[a-zA-Z ,]`
abbrev phase_byte : ℕ → Bool
phase_byte b = is_letter b || b == b' ' || b == b','

-- `Update state \(0x[0-9a-fA-F]+\)\s+([a-zA-Z ,]+?),\s*progress:\s*([\d.]+)`
unfoldable pub re_progress : Re
re_progress = seq (literal (bytes "Update state (0x")) (
    seq (plus (one is_hex)) (
      seq (literal (bytes ")")) (
        seq (plus (one is_blank)) (
          seq (group 1 (seq (one phase_byte) (lazy (one phase_byte)))) (
            seq (literal (bytes ",")) (
              seq spaces (
                seq (literal (bytes "progress:"))
                  (seq spaces (group 2 (plus (one (λ b. is_digit b || b == b'.'))))))))))))

-- `App '\d+' state is 0x6 after update job`
unfoldable pub re_stale_manifest : Re
re_stale_manifest =
    seq (literal (bytes "App '"))
      (seq (plus (one is_digit)) (literal (bytes "' state is 0x6 after update job")))

-- `^\d+$`
unfoldable pub re_app_id : Re
re_app_id = seq at_start (seq (plus (one is_digit)) at_end)

-- `"StateFlags"\s+"(\d+)"`
unfoldable pub re_state_flags : Re
re_state_flags = seq (literal (bytes "\"StateFlags\"")) (
    seq (plus (one is_blank))
      (seq (literal (bytes "\"")) (seq (group 1 (plus (one is_digit))) (literal (bytes "\"")))))

-- `reAppID.MatchString`
unfoldable pub is_app_id : Text → Bool
unfolding match_string re_app_id
is_app_id s = match_string re_app_id s
