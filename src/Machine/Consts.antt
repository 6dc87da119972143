-- ===== src/Machine/Consts.antt =====
-- Constants of shared/fs_shared.h, shared/k_errno.h, shared/k_fcntl.h, kernel/file.h,
-- kernel/process.h, kernel/page.h, kernel/kernel.h and kernel/fs.c.
use dmaos.Base.{ℕ, ℤ, negsuc}

abbrev pub ninode : ℕ
ninode = 50

abbrev pub sectors_per_block : ℕ
sectors_per_block = 2

abbrev pub sector_size : ℕ
sector_size = 512

abbrev pub bsize : ℕ
bsize = 1024

abbrev pub xv6_fs_magic : ℕ
xv6_fs_magic = 0x10203040

abbrev pub ndirect : ℕ
ndirect = 12

abbrev pub nindirect : ℕ
nindirect = 256

abbrev pub ndindirect : ℕ
ndindirect = 65536

abbrev pub maxfile : ℕ
maxfile = 65804

abbrev pub sizeof_dinode : ℕ
sizeof_dinode = 128

abbrev pub sizeof_fsdirent : ℕ
sizeof_fsdirent = 32

abbrev pub dirsiz : ℕ
dirsiz = 30

abbrev pub ft_unused : ℕ
ft_unused = 0

abbrev pub ft_directory : ℕ
ft_directory = 1

abbrev pub ft_file : ℕ
ft_file = 2

abbrev pub num_files_per_process : ℕ
num_files_per_process = 16

abbrev pub global_open_file_limit : ℕ
global_open_file_limit = 64

abbrev pub procs_max : ℕ
procs_max = 8

abbrev pub max_path : ℕ
max_path = 256

abbrev pub filectrl_readonly : ℕ
filectrl_readonly = 0x001

abbrev pub filectrl_writeonly : ℕ
filectrl_writeonly = 0x002

abbrev pub filectrl_readwrite : ℕ
filectrl_readwrite = 0x003

abbrev pub filectrl_create : ℕ
filectrl_create = 0x004

abbrev pub filectrl_truncate : ℕ
filectrl_truncate = 0x008

abbrev pub filectrl_append : ℕ
filectrl_append = 0x010

abbrev pub err_not_found : ℤ
err_not_found = negsuc 1

abbrev pub err_io : ℤ
err_io = negsuc 4

abbrev pub err_bad_file : ℤ
err_bad_file = negsuc 8

abbrev pub err_permission_denied : ℤ
err_permission_denied = negsuc 12

abbrev pub err_already_exists : ℤ
err_already_exists = negsuc 16

abbrev pub err_not_a_directory : ℤ
err_not_a_directory = negsuc 19

abbrev pub err_invalid_argument : ℤ
err_invalid_argument = negsuc 21

abbrev pub err_no_space : ℤ
err_no_space = negsuc 27

abbrev pub err_directory_not_empty : ℤ
err_directory_not_empty = negsuc 38

-- `return -1`.
abbrev pub minus_one : ℤ
minus_one = negsuc 0

abbrev pub page_size : ℕ
page_size = 4096

abbrev pub num_pages : ℕ
num_pages = 16384

abbrev pub user_base : ℕ
user_base = 0x1000000

-- shared/fs_shared.h.
abbrev pub max_filename : ℕ
max_filename = 128

abbrev pub max_path_depth : ℕ
max_path_depth = 32
