-- ===== src/FileServer/Help.antt =====
-- The help of the server: `argumentOfHelp` and `cmd_help` of MidtermProject/server.c.
pub mod Topics
mod Tests
use cse344system_programming.Prelude.{
  ℕ, if◌then◌else◌, Bool, true, false, List, [], ◌∷◌, ◌++◌, codes, str_eq,
}
use cse344system_programming.FileServer.Commands.{Response, resp_ok, write_response}

abbrev pub overview : List ℕ
overview =
    codes
      "Available comments are:\n\thelp, list, readF, writeT, upload, download, quit, killServer,archServer"

-- `argumentOfHelp`.
unfoldable pub help_text : List ℕ → List ℕ
help_text cmd =
    if str_eq (codes "help") cmd
    then codes
        "help <request>\n\texplain the given request if there is no specific request\n\tprovided then display the list of possible client requests"
    else if str_eq (codes "list") cmd
    then codes "list\n\tdisplay the list of files in Servers directory"
    else if str_eq (codes "quit") cmd
    then codes "quit\n\tSend write request to Server side log file and quits"
    else if str_eq (codes "killServer") cmd
    then codes "killServer\n\tSends a kill request to the Server"
    else if str_eq (codes "writeT") cmd
    then codes
        "writeT <file> <line #> <string>\n\trequest to write the content of 'string' to the #th line the <file>, if\n\tthe line # is not given writes to the end of file. If the file does not\n\texists in Servers directory, creates and edits the file at the same time"
    else if str_eq (codes "readF") cmd
    then codes
        "readF <file> <line #>\n\tdisplay the # line of the <file>, if no line number is given, whole\n\tcontents of the file is requested (and displayed on the client side)"
    else if str_eq (codes "upload") cmd
    then codes
        "upload <file>\n\tuploads the file from the current working directory of client to the Servers directory"
    else if str_eq (codes "download") cmd
    then codes "download <file>\n\trequest to receive <file> from Servers directory to client side"
    else if str_eq (codes "archServer") cmd
    then codes
        "archServer <fileNAME>.tar\n\tUsing fork, exec and tar utilities create a child process that will collect all the files currently available on the the  Server side and store them in the <filename>.tar archive"
    else overview

-- `cmd_help`: the text with its terminator; the flags are the successes of the two calls of write.
unfoldable pub cmd_help : (header_ok body_ok : Bool) → List ℕ → Bool × List Response
unfolding help_text write_response
cmd_help header_ok body_ok cmd =
    write_response header_ok body_ok (record { stat = resp_ok; body = help_text cmd ++ 0 ∷ [] })
